-- ===== src/Tasks/Export/Moves.antt =====
-- Waiting, cancelling and stopping, and what the parent does, leave the outcome of an ExportTask as
-- it is once there is one.
use tirtc_client_python.Prelude.{
  sym, ap, ◌≡◌, refl, Bool, true, false, String, Option, none, some, if-cases, arith, ◌∙◌,
}
use tirtc_client_python.Prelude.Int.{ℤ}
use tirtc_client_python.Errors.Action.{
  sdk, builtin, foreign, Result, ok, err, pure, lift, raise_if, ◌>>=◌, ◌>>◌,
}
use tirtc_client_python.Errors.{in_use_error}
use tirtc_client_python.Calls.{
  Held, change, reads, require_process, checked, retry_result, retry_in_use,
}
use tirtc_client_python.Calls.Closing.{
  Closable, Ended, returned, waits, pending, is_closed, opened, free, closing,
}
use tirtc_client_python.Calls.Effects.{
  checked-Moves, retry_result-Moves, retry_in_use-Moves, free-Moves, opened-Moves, closing-Moves,
}
use tirtc_client_python.Util.Moments.{TimeoutArgument, no_timeout, timeout}
use tirtc_client_python.Tasks.Media.{RecordingFile}
use tirtc_client_python.Tasks.Media.Deletion.{SameFile, delete-SameFile}
use tirtc_client_python.Tasks.Export.{
  Export, Native, stopped, cancel_live, settle_task, deliver, load_report, result_or_error,
  close_dispatcher, finish_parent, teardown, finish_task, await_done, wait, cancel, stop_export,
  stop_unless, stop_task, delete_file, delete_result, parent_waited, parent_waits, cancel_unless,
  close_from_parent,
}
use tirtc_client_python.Tasks.Export.Evolution.{
  Evolves, Evolves-composes, same_outcome, settle_task-Evolves, still, deliver-Moved,
  free_process-Moved, change-Moved, Moved, ClosableMoved, chain, closable_chain, location,
}
use tirtc_client_python.Tasks.Export.Reports.{load_report-Moved}

module _ {N : Type 0} (native : Native N) where
  close_dispatcher-Moved : Moved native (close_dispatcher native)
  unfolding close_dispatcher
  close_dispatcher-Moved =
      chain native (deliver native) (λ _. change (λ t. record t { dispatcher_closed = true }))
        (deliver-Moved native)
        λ _.
          change-Moved native (λ t. record t { dispatcher_closed = true })
            λ t. same_outcome _ _ refl refl refl refl

  finish_parent-Evolves : (t : Export) → Evolves t (finish_parent native t)
  unfolding finish_parent
  finish_parent-Evolves t =
      if-cases (Evolves t) t.parent_finished (λ told. Evolves-composes.stay t)
        λ untold. same_outcome _ _ refl refl refl refl

  teardown-Moved : Moved native (teardown native)
  unfolding teardown
  teardown-Moved =
      chain native
        (load_report native
          >> close_dispatcher native
          >> retry_in_use native.base native.close
          >> change (finish_parent native))
        (λ _. reads (λ t. t.error))
        (chain native
          (load_report native >> close_dispatcher native >> retry_in_use native.base native.close)
          (λ _. change (finish_parent native))
          (chain native (load_report native >> close_dispatcher native)
            (λ _. retry_in_use native.base native.close)
            (chain native (load_report native) (λ _. close_dispatcher native)
              (load_report-Moved native) (λ _. close_dispatcher-Moved))
            (λ _. retry_in_use-Moves Evolves Evolves-composes native.base native.close))
          (λ _. change-Moved native (finish_parent native) finish_parent-Evolves))
        λ _. still native (λ t. ok t.error)

  finish_task-Moved : ClosableMoved native (finish_task native)
  unfolding finish_task result_or_error
  finish_task-Moved =
      closing-Moves Evolves Evolves-composes (λ t. t) (λ _. result_or_error native)
        Evolves-composes.stay (λ _ s. Evolves-composes.stay s.self) (teardown native) teardown-Moved

  await_done-Moved : (limit : TimeoutArgument) → ClosableMoved native (await_done native limit)
  unfolding await_done
  await_done-Moved limit s =
      if-cases (λ x. Evolves s.object.self x.1.object.self) s.object.self.done
        {x = finish_task native s} (λ done. finish_task-Moved s)
        λ undone. Evolves-composes.stay s.object.self

  allowed-Moved :
      (blocking : Bool)
      → ClosableMoved native
          (free (require_process native.base) >> raise_if blocking (sdk in_use_error))
  allowed-Moved blocking =
      closable_chain native (free (require_process native.base))
        (λ _. raise_if blocking (sdk in_use_error)) (free_process-Moved native)
        λ _ s. Evolves-composes.stay s.object.self

  pub wait-Moved :
      (blocking : Bool) (limit : TimeoutArgument)
      → ClosableMoved native (wait native blocking limit)
  unfolding wait
  wait-Moved blocking limit =
      closable_chain native
        (free (require_process native.base)
          >> raise_if blocking (sdk in_use_error)
          >> lift (timeout limit "timeout")
          >> free (deliver native))
        (λ _. await_done native limit)
        (closable_chain native
          (free (require_process native.base)
            >> raise_if blocking (sdk in_use_error)
            >> lift (timeout limit "timeout"))
          (λ _. free (deliver native))
          (closable_chain native
            (free (require_process native.base) >> raise_if blocking (sdk in_use_error))
            (λ _. lift (timeout limit "timeout")) (allowed-Moved blocking)
            (λ _ s. Evolves-composes.stay s.object.self))
          (λ _ s. deliver-Moved native s.object))
        λ _. await_done-Moved limit

  cancel_live-Moved : ClosableMoved native (cancel_live native)
  unfolding cancel_live
  cancel_live-Moved s =
      if-cases
        (λ (x : Result (Unit {0}) × Closable Export N). Evolves s.object.self x.1.object.self)
        s.object.self.terminal {x = pure tt s} (λ over. Evolves-composes.stay s.object.self)
        λ live.
          closable_chain native (opened (pure tt))
            (λ _. free (checked native.base native.export_cancel))
            (opened-Moves Evolves Evolves-composes (pure tt) (λ t. Evolves-composes.stay t.self))
            (λ _.
              free-Moves Evolves Evolves-composes (checked native.base native.export_cancel)
                (checked-Moves Evolves Evolves-composes native.base native.export_cancel))
            s

  pub cancel-Moved : ClosableMoved native (cancel native)
  unfolding cancel
  cancel-Moved =
      closable_chain native (free (require_process native.base)) (λ _. cancel_live native)
        (free_process-Moved native) λ _. cancel_live-Moved

  stopped-Moved : (v : ℤ × (String × ℤ)) → Moved native (stopped native v)
  unfolding stopped
  stopped-Moved (code, (path, ms)) =
      chain native (deliver native)
        (λ _ s.
          let (r, t) = settle_task native code path ms s.world s.self in (r, record s { self = t }))
        (deliver-Moved native) λ _ s. settle_task-Evolves native code path ms s.world s.self

  stop_unless-Moved : (terminal : Bool) → Moved native (stop_unless native terminal)
  unfolding stop_unless stop_export
  stop_unless-Moved true = still native (λ t. ok tt)
  stop_unless-Moved false =
      chain native (retry_result native.base (λ v. v.0) native.export_stop) (stopped native)
        (retry_result-Moves Evolves Evolves-composes native.base (λ v. v.0) native.export_stop)
        stopped-Moved

  pub stop_task-Moved : (blocking : Bool) → ClosableMoved native (stop_task native blocking)
  unfolding stop_task result_or_error
  stop_task-Moved blocking =
      closable_chain native
        (free (require_process native.base) >> raise_if blocking (sdk in_use_error))
        (λ _.
          closing (λ t. t) (λ _. result_or_error native)
            (reads (λ t. t.terminal) >>= stop_unless native >> teardown native))
        (allowed-Moved blocking)
        λ _.
          closing-Moves Evolves Evolves-composes (λ t. t) (λ _. result_or_error native)
            Evolves-composes.stay (λ _ s. Evolves-composes.stay s.self)
            (reads (λ t. t.terminal) >>= stop_unless native >> teardown native)
            (chain native (reads (λ t. t.terminal) >>= stop_unless native) (λ _. teardown native)
              (chain native (reads (λ t. t.terminal)) (stop_unless native)
                (still native (λ t. ok t.terminal)) stop_unless-Moved)
              λ _. teardown-Moved)

  same_location : (f g : RecordingFile) → SameFile f g → location (some g) ≡ location (some f)
  same_location f g same = ground (arith, same.path, same.duration_ms)

  delete_file-Evolves :
      (o : Option RecordingFile) (s : Held Export N)
      → s.self.file ≡ o
      → Evolves s.self (delete_file native o s).1.self
  unfolding delete_file
  delete_file-Evolves none s same = Evolves-composes.stay s.self
  delete_file-Evolves (some f) s same =
      let kept =
        delete-SameFile native.base native.delete_media_file
          (record { self = f; world = s.world }) in
      record {
        settled = λ h. record {
          done = ground (arith, h.done, same);
          single = ground (arith, h.single, same);
          over = h.over;
        };
        final = λ h. record {
          terminal = h;
          error = refl;
          file = same_location f _ kept ∙ sym (ap location same);
        };
      }

  delete_result-Moved : Moved native (delete_result native)
  unfolding delete_result
  delete_result-Moved s = delete_file-Evolves s.self.file s refl

  parent_waited-Moved :
      (r : Result (Ended RecordingFile)) → ClosableMoved native (parent_waited native r)
  unfolding parent_waited
  parent_waited-Moved (err (sdk e)) s =
      if-cases
        (λ (x : Result (Ended (Unit {0})) × Closable Export N).
          Evolves s.object.self x.1.object.self)
        (is_closed s.coordinator.status) {x = (ok (returned tt), s)}
        (λ _. Evolves-composes.stay s.object.self) λ _. Evolves-composes.stay s.object.self
  parent_waited-Moved (err (builtin b m)) s = Evolves-composes.stay s.object.self
  parent_waited-Moved (err (foreign m)) s = Evolves-composes.stay s.object.self
  parent_waited-Moved (ok (returned f)) s =
      closable_chain native (free (delete_result native)) (λ _. pure (returned tt))
        (λ t. delete_result-Moved t.object) (λ _ t. Evolves-composes.stay t.object.self) s
  parent_waited-Moved (ok (waits g)) s = Evolves-composes.stay s.object.self
  parent_waited-Moved (ok pending) s = Evolves-composes.stay s.object.self

  parent_waits-Moved : ClosableMoved native (parent_waits native)
  unfolding parent_waits
  parent_waits-Moved s =
      let (r, t) = wait native false no_timeout s in
      Evolves-composes.go_on s.object.self t.object.self _ (wait-Moved false no_timeout s)
        (parent_waited-Moved r t)

  cancel_unless-Moved : (terminal : Bool) → ClosableMoved native (cancel_unless native terminal)
  unfolding cancel_unless
  cancel_unless-Moved true s = Evolves-composes.stay s.object.self
  cancel_unless-Moved false s = cancel-Moved s

  pub close_from_parent-Moved : ClosableMoved native (close_from_parent native)
  unfolding close_from_parent
  close_from_parent-Moved s =
      closable_chain native (cancel_unless native s.object.self.terminal) (λ _. parent_waits native)
        (cancel_unless-Moved s.object.self.terminal) (λ _. parent_waits-Moved) s
