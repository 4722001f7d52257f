-- ===== src/Tasks/Export.antt =====
-- src/tirtc/storage/__init__.py: ExportTask. A fraction is a multiple of the smallest double, and
-- `one` is 1.0. The events that the dispatcher's worker handles while a call runs are `meanwhile`.
mod System
mod Evolution
mod Reports
mod Moves
mod Settled
mod Tests
use tirtc_client_python.Prelude.{
  ℕ, Bool, true, false, not, ◌&&◌, ◌||◌, String, Option, none, some, List, [], ◌∷◌, is_empty,
  is_some, if◌then◌else◌,
}
use tirtc_client_python.Prelude.Int.{ℤ, pos, eqb_ℤ, ltb_ℤ, leb_ℤ}
use tirtc_client_python.Errors.{TirtcError, in_use_error, timeout_error}
use tirtc_client_python.Errors.Action.{
  Exception, sdk, builtin, assertion_error, Result, ok, err, Action, pure, raise, raise_if, lift,
  ◌>>=◌, ◌>>◌,
}
use tirtc_client_python.Lifecycle.{Status, open_, Coordinator, copy_error}
use tirtc_client_python.Calls.{
  Sdk, Held, Call, outside, change, reads, checks, caught, require_process, checked, checked_value,
  retry_result, retry_in_use, failure_of,
}
use tirtc_client_python.Calls.Closing.{
  Closable, Ended, returned, waits, pending, is_closed, opened, free, closing,
}
use tirtc_client_python.Util.Moments.{TimeoutArgument, no_timeout, timeout}
use tirtc_client_python.Storage.Values.{
  NativeGap, NativeReport, RecordingGap, ExportReport, recording_gap_from_native,
  export_report_from_native,
}
use tirtc_client_python.Tasks.Media.{RecordingFile, new_file, delete}

pub record ExportProgress : Type 0 where
  pub fraction : ℤ
  pub covered_duration_ms : ℤ

-- The two callbacks, given or not; `prepared` is whether there is a handle, and `listed` whether
-- the parent's `_exports` holds the task.
pub record Export : Type 0 where
  pub on_progress : Bool
  pub on_recording_gap : Bool
  pub prepared : Bool
  pub done : Bool
  pub progress : ExportProgress
  pub report : Option ExportReport
  pub terminal : Bool
  pub dispatcher_closed : Bool
  pub parent_finished : Bool
  pub listed : Bool
  pub file : Option RecordingFile
  pub error : Option Exception

-- What native code posts to the task.
pub data TaskEvent : Type 0 where
  progressed : (fraction covered : ℤ) → TaskEvent
  gap : NativeGap → TaskEvent
  completed : (code : ℤ) (path : String) (duration_ms : ℤ) → TaskEvent

-- What the user's callbacks are told, or what the handler raises.
pub data Told : Type 0 where
  nothing : Told
  told_progress : ExportProgress → Told
  told_gap : RecordingGap → Told
  handler_raised : Exception → Told

-- What the task relies on outside it.
pub record Native (N : Type 0) : Type 0 where
  pub base : Sdk N
  pub export_progress : N → (ℤ × (ℤ × ℤ)) × N
  pub export_report : N → (ℤ × NativeReport) × N
  pub export_cancel : N → ℤ × N
  pub export_stop : N → (ℤ × (String × ℤ)) × N
  pub close : N → ℤ × N
  pub delete_media_file : String → N → ℤ × N
  pub meanwhile : N → List TaskEvent
  pub one : ℤ

unfoldable pub prepared_task : Bool → Bool → Export
prepared_task on_progress on_recording_gap = record {
  on_progress = on_progress;
  on_recording_gap = on_recording_gap;
  prepared = false;
  done = false;
  progress = record { fraction = pos 0; covered_duration_ms = pos 0 };
  report = none;
  terminal = false;
  dispatcher_closed = false;
  parent_finished = false;
  listed = true;
  file = none;
  error = none;
}

abbrev pub clamped : ℤ → ℤ → ℤ
clamped one f =
    let low = (if ltb_ℤ f (pos 0) then pos 0 else f) in if ltb_ℤ one low then one else low

module _ {N : Type 0} (native : Native N) where
  -- What the first of a `completed` event and a stop writes: `terminal` and the file, and then the
  -- error and `done`, unless the error's name cannot be asked for.
  begin_settled : ℤ → String → ℤ → Export → Export
  unfolding new_file
  begin_settled code path duration_ms t = record t {
    terminal = true;
    file = if eqb_ℤ code (pos 0) then some (new_file path duration_ms) else none;
  }

  end_settled : Result (Option Exception) → Export → Result (Unit {0}) × Export
  end_settled (ok e) t = (ok tt, record t { error = e; done = true })
  end_settled (err e) t = (err e, t)

  unfoldable pub settle_task : ℤ → String → ℤ → N → Export → Result (Unit {0}) × Export
  unfolding begin_settled end_settled failure_of
  settle_task code path duration_ms n t =
      if t.terminal
      then (ok tt, t)
      else end_settled (failure_of native.base code n) (begin_settled code path duration_ms t)

  completed_told : Result (Unit {0}) × Export → Export × Told
  completed_told (ok u, t) = (t, nothing)
  completed_told (err e, t) = (t, handler_raised e)

  gap_told : Result RecordingGap → Told
  gap_told (ok g) = told_gap g
  gap_told (err e) = handler_raised e

  -- `_handle_event`, in the world `n`
  unfoldable pub handle_event : N → TaskEvent → Export → Export × Told
  unfolding settle_task completed_told gap_told recording_gap_from_native
  handle_event n (progressed fraction covered) t =
      let progress : ExportProgress = record {
        fraction = fraction;
        covered_duration_ms = covered;
      } in
      if t.terminal || ltb_ℤ fraction t.progress.fraction then (t, nothing) else (
        record t { progress = progress },
        if t.on_progress then told_progress progress else nothing,
      )
  handle_event n (gap v) t =
      (t, if t.on_recording_gap then gap_told (recording_gap_from_native v) else nothing)
  handle_event n (completed code path duration_ms) t =
      completed_told (settle_task code path duration_ms n t)

  unfoldable pub handle_all : N → List TaskEvent → Export → Export
  unfolding handle_event
  handle_all n [] t = t
  handle_all n (e ∷ rest) t = handle_all n rest (handle_event n e t).0

  -- The worker goes on while a call waits.
  unfoldable pub deliver : Call Export N (Unit {0})
  unfolding handle_all
  deliver s = (ok tt, record s { self = handle_all s.world (native.meanwhile s.world) s.self })

  show_progress : ℤ × ℤ → Export → Export
  show_progress (fraction, covered) t =
      if leb_ℤ t.progress.fraction (clamped native.one fraction)
      then record t {
        progress = record { fraction = clamped native.one fraction; covered_duration_ms = covered };
      }
      else t

  refresh : Call Export N (Unit {0})
  unfolding checked_value show_progress
  refresh = checked_value native.base native.export_progress >>= λ v. change (show_progress v)

  refresh_open : Status → Call Export N (Unit {0})
  unfolding refresh
  refresh_open open_ s = if s.self.prepared then refresh s else pure tt s
  refresh_open _ s = pure tt s

  progress_locked : Action (Closable Export N) ExportProgress
  unfolding refresh_open
  progress_locked s = free (refresh_open s.coordinator.status >> reads (λ t. t.progress)) s

  -- `progress_detail`
  unfoldable pub progress_detail : Action (Closable Export N) ExportProgress
  unfolding progress_locked require_process
  progress_detail = free (require_process native.base) >> progress_locked

  set_progress : ℤ × ℤ → Export → Export
  set_progress (fraction, covered) t = record t {
    progress = record { fraction = fraction; covered_duration_ms = covered };
  }

  set_report : ExportReport → Export → Export
  set_report r t = record t { report = some r }

  store_report : ExportReport → Call Export N ExportReport
  unfolding set_report
  store_report r = change (set_report r) >> pure r

  decode_report : NativeReport → Call Export N ExportReport
  unfolding store_report export_report_from_native
  decode_report v = lift (export_report_from_native native.base.code_error v) >>= store_report

  last_progress : NativeReport → ℤ × ℤ → Call Export N ExportReport
  unfolding set_progress decode_report
  last_progress v p = change (set_progress p) >> decode_report v

  read_progress : NativeReport → Call Export N ExportReport
  unfolding checked_value last_progress
  read_progress v = checked_value native.base native.export_progress >>= last_progress v

  read_report : Call Export N ExportReport
  unfolding checked_value read_progress
  read_report = checked_value native.base native.export_report >>= read_progress

  report_kept : Option ExportReport → Call Export N ExportReport
  unfolding read_report
  report_kept none = read_report
  report_kept (some r) = pure r

  -- `_load_report`
  unfoldable pub load_report : Call Export N ExportReport
  unfolding report_kept
  load_report = reads (λ t. t.report) >>= report_kept

  -- `report`
  unfoldable pub report_of : Call Export N ExportReport
  unfolding load_report require_process in_use_error
  report_of =
      require_process native.base >> checks (λ t. not t.terminal) (sdk in_use_error) >> load_report

  result_of : Option Exception → Option RecordingFile → Result RecordingFile
  unfolding copy_error
  result_of (some e) file = err (copy_error e)
  result_of none (some f) = ok f
  result_of none none = err (builtin assertion_error "")

  -- `_result_or_error`
  unfoldable pub result_or_error : Call Export N RecordingFile
  unfolding result_of
  result_or_error s = (result_of s.self.error s.self.file, s)

  close_dispatcher : Call Export N (Unit {0})
  unfolding deliver
  close_dispatcher = deliver >> change (λ t. record t { dispatcher_closed = true })

  -- `self._parent._finish_export(self)`, once.
  finish_parent : Export → Export
  finish_parent t =
      if t.parent_finished then t else record t { listed = false; parent_finished = true }

  -- What `_finish` and `stop` do once the task is terminal.
  teardown : Call Export N (Option Exception)
  unfolding load_report close_dispatcher retry_in_use finish_parent
  teardown =
      load_report
      >> close_dispatcher
      >> retry_in_use native.base native.close
      >> change finish_parent
      >> reads (λ t. t.error)

  -- `_finish`
  unfoldable pub finish_task : Action (Closable Export N) (Ended RecordingFile)
  unfolding closing teardown result_or_error
  finish_task = closing (λ t. t) (λ _. result_or_error) teardown

  undone : TimeoutArgument → Result (Ended RecordingFile)
  unfolding timeout_error
  undone no_timeout = ok pending
  undone _ = err (sdk timeout_error)

  await_done : TimeoutArgument → Action (Closable Export N) (Ended RecordingFile)
  unfolding finish_task undone
  await_done limit s = if s.object.self.done then finish_task s else (undone limit, s)

  -- `wait`; `blocking` is whether the caller is a callback of the task.
  unfoldable pub wait : Bool → TimeoutArgument → Action (Closable Export N) (Ended RecordingFile)
  unfolding await_done timeout deliver require_process in_use_error
  wait blocking limit =
      free (require_process native.base)
      >> raise_if blocking (sdk in_use_error)
      >> lift (timeout limit "timeout")
      >> free deliver
      >> await_done limit

  cancel_live : Action (Closable Export N) (Unit {0})
  unfolding checked
  cancel_live s =
      if s.object.self.terminal
      then pure tt s
      else (opened (pure tt) >> free (checked native.base native.export_cancel)) s

  -- `cancel`
  unfoldable pub cancel : Action (Closable Export N) (Unit {0})
  unfolding cancel_live require_process
  cancel = free (require_process native.base) >> cancel_live

  stopped : ℤ × (String × ℤ) → Call Export N (Unit {0})
  unfolding deliver settle_task
  stopped (code, (path, duration_ms)) = deliver >> λ s.
      let (r, t) = settle_task code path duration_ms s.world s.self in (r, record s { self = t })

  stop_export : Call Export N (Unit {0})
  unfolding retry_result stopped
  stop_export = retry_result native.base (λ v. v.0) native.export_stop >>= stopped

  stop_unless : Bool → Call Export N (Unit {0})
  unfolding stop_export
  stop_unless true = pure tt
  stop_unless false = stop_export

  -- `stop`
  unfoldable pub stop_task : Bool → Action (Closable Export N) (Ended RecordingFile)
  unfolding closing stop_unless teardown result_or_error require_process in_use_error
  stop_task blocking =
      free (require_process native.base)
      >> raise_if blocking (sdk in_use_error)
      >> closing (λ t. t) (λ _. result_or_error)
          (reads (λ t. t.terminal) >>= stop_unless >> teardown)

  delete_file : Option RecordingFile → Call Export N (Unit {0})
  unfolding delete
  delete_file none s = (ok tt, s)
  delete_file (some f) s =
      let (r, t) =
        delete native.base native.delete_media_file (record { self = f; world = s.world }) in
      (r, record { self = record s.self { file = some t.self }; world = t.world })

  -- `result.delete()`, where the result is the object that the task keeps in `_file`.
  delete_result : Call Export N (Unit {0})
  unfolding delete_file
  delete_result s = delete_file s.self.file s

  parent_waited : Result (Ended RecordingFile) → Action (Closable Export N) (Ended (Unit {0}))
  unfolding delete_result
  parent_waited (err (sdk e)) s =
      if is_closed s.coordinator.status then (ok (returned tt), s) else raise (sdk e) s
  parent_waited (err e) s = raise e s
  parent_waited (ok (returned f)) s = (free (delete_result) >> pure (returned tt)) s
  parent_waited (ok (waits g)) s = (ok (waits g), s)
  parent_waited (ok pending) s = (ok pending, s)

  parent_waits : Action (Closable Export N) (Ended (Unit {0}))
  unfolding wait parent_waited
  parent_waits s = let (r, t) = wait false no_timeout s in parent_waited r t

  cancel_unless : Bool → Action (Closable Export N) (Unit {0})
  unfolding cancel
  cancel_unless terminal = if terminal then pure tt else cancel

  -- `_close_from_parent`
  unfoldable pub close_from_parent : Action (Closable Export N) (Ended (Unit {0}))
  unfolding cancel_unless parent_waits
  close_from_parent s = (cancel_unless s.object.self.terminal >> parent_waits) s
