-- ===== src/Tasks/Export/Settled.antt =====
-- The outcome of an ExportTask: `_done` goes with a file or an error, and the outcome never changes.
use tirtc_client_python.Prelude.{◌≡◌, refl, sym, subst, true, Bool, List, [], ◌∷◌}
use tirtc_client_python.Calls.Closing.{Closable}
use tirtc_client_python.Tasks.Export.{Export, Native, prepared_task}
use tirtc_client_python.Tasks.Export.System.{
  Operation, event, ask_progress, ask_report, wait_for, cancels, stops, parent_closes, run, run_all,
}
use tirtc_client_python.Tasks.Export.Evolution.{
  Evolves, Evolves-composes, handle_event-Evolves, IsSettled, HasOutcome,
}
use tirtc_client_python.Tasks.Export.Reports.{progress_detail-Moved, report_of-Moved}
use tirtc_client_python.Tasks.Export.Moves.{
  wait-Moved, cancel-Moved, stop_task-Moved, close_from_parent-Moved,
}

module _ {N : Type 0} (native : Native N) where
  run-Evolves :
      (o : Operation) (s : Closable Export N) → Evolves s.object.self (run native o s).object.self
  unfolding run
  run-Evolves (event e) s = handle_event-Evolves native s.object.world e s.object.self
  run-Evolves ask_progress s = progress_detail-Moved native s
  run-Evolves ask_report s = report_of-Moved native s.object
  run-Evolves (wait_for blocking limit) s = wait-Moved native blocking limit s
  run-Evolves cancels s = cancel-Moved native s
  run-Evolves (stops blocking) s = stop_task-Moved native blocking s
  run-Evolves parent_closes s = close_from_parent-Moved native s

  run_all-Evolves :
      (os : List Operation) (s : Closable Export N)
      → Evolves s.object.self (run_all native os s).object.self
  unfolding run_all
  run_all-Evolves [] s = Evolves-composes.stay s.object.self
  run_all-Evolves (o ∷ os) s =
      Evolves-composes.go_on s.object.self (run native o s).object.self _ (run-Evolves o s)
        (run_all-Evolves os (run native o s))

  new-IsSettled :
      (on_progress on_recording_gap : Bool) → IsSettled (prepared_task on_progress on_recording_gap)
  unfolding prepared_task
  new-IsSettled on_progress on_recording_gap = record { done = refl; single = refl; over = refl }

  -- From a new task on, after any calls and events in any order, with any events handled while a
  -- call runs, and also where the process is refused while an error is named: `_done` is set just
  -- where the task has a file or an error, it never has both, and `_done` is never set before the
  -- task is terminal.
  pub task-IsSettled :
      (on_progress on_recording_gap : Bool) (os : List Operation) (s : Closable Export N)
      → s.object.self ≡ prepared_task on_progress on_recording_gap
      → IsSettled (run_all native os s).object.self
  task-IsSettled on_progress on_recording_gap os s new =
      (run_all-Evolves os s).settled
        (subst IsSettled (sym new) (new-IsSettled on_progress on_recording_gap))

  -- Once a task is terminal, no call and no event, in any order, changes whether it has a file or
  -- an error, which error, or where the file is and how long: a completion and a stop that race
  -- leave the outcome of the first.
  pub outcome_is_final :
      (os : List Operation) (s : Closable Export N)
      → s.object.self.terminal ≡ true
      → HasOutcome s.object.self (run_all native os s).object.self
  outcome_is_final os s over = (run_all-Evolves os s).final over
