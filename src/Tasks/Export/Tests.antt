-- ===== src/Tasks/Export/Tests.antt =====
-- An export that is stopped while its completion comes in, with the theorems at it.
use tirtc_client_python.Errors.Action.{foreign, err}
use tirtc_client_python.Prelude.{ℕ, ◌≡◌, refl, true, false, List, [], ◌∷◌}
use tirtc_client_python.Prelude.Int.{pos}
use tirtc_client_python.Lifecycle.{new}
use tirtc_client_python.Calls.Closing.{Closable}
use tirtc_client_python.Calls.Sample.{base, succeeds_now}
use tirtc_client_python.Storage.Values.{NativeReport}
use tirtc_client_python.Tasks.Export.{
  Export, Native, progressed, completed, prepared_task, handle_event, settle_task, Told,
  handler_raised,
}
use tirtc_client_python.Tasks.Export.System.{Operation, event, stops, parent_closes, run_all}
use tirtc_client_python.Tasks.Export.Evolution.{IsSettled, HasOutcome}
use tirtc_client_python.Tasks.Export.Settled.{task-IsSettled, outcome_is_final}

abbrev no_report : NativeReport
no_report = record {
  start = pos 0;
  end = pos 1000;
  covered = pos 1000;
  complete = true;
  termination = pos 0;
  cause = pos 0;
  segments = [];
  gaps = [];
  unprocessed = [];
}

-- The completion comes in while the native stop runs.
abbrev native : Native ℕ
native = record {
  base = base;
  export_progress = λ n. ((pos 0, (pos 8, pos 1000)), n);
  export_report = λ n. ((pos 0, no_report), n);
  export_cancel = succeeds_now;
  export_stop = λ n. ((pos 6001, ("", pos 0)), n);
  close = succeeds_now;
  delete_media_file = λ path. succeeds_now;
  meanwhile = λ n. completed (pos 0) "/tmp/e.mp4" (pos 1000) ∷ [];
  one = pos 8;
}

abbrev fresh : Closable Export ℕ
unfolding prepared_task new
fresh = record { coordinator = new; object = record { self = prepared_task true false; world = 0 } }

abbrev operations : List Operation
operations = event (progressed (pos 3) (pos 10)) ∷ stops false ∷ parent_closes ∷ []

abbrev done : Closable Export ℕ
unfolding prepared_task new handle_event
done = record fresh {
  object = record {
    self =
        (handle_event native 0 (completed (pos 0) "/tmp/e.mp4" (pos 1000))
          (prepared_task true false)).0;
    world = 0;
  };
}

task-IsSettled_example : IsSettled (run_all native operations fresh).object.self
unfolding prepared_task fresh
task-IsSettled_example = task-IsSettled native true false operations fresh refl

outcome_is_final_example : HasOutcome done.object.self (run_all native operations done).object.self
unfolding handle_event done
outcome_is_final_example = outcome_is_final native operations done refl

-- A completion with an error that is handled while the interpreter is finalizing: the task is
-- terminal, and `done` is not set.
abbrev refusing : Native ℕ
refusing = record native { base = record base { process = λ n. err (foreign "finalizing") } }

abbrev unnamed : Export × Told
unfolding handle_event prepared_task
unnamed = handle_event refusing 0 (completed (pos 6001) "" (pos 0)) (prepared_task true false)

never_done :
    (unnamed.0.terminal ≡ true)
    × (unnamed.0.done ≡ false)
    × (unnamed.1 ≡ handler_raised (foreign "finalizing"))
unfolding handle_event prepared_task settle_task
never_done = (refl, refl, refl)
