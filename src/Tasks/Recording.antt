-- ===== src/Tasks/Recording.antt =====
-- RecordingTask of src/tirtc/_core.py, on a connection, and of src/tirtc/storage/__init__.py, on a
-- replay: the two differ in the name of the parent only.
mod Stability
mod Once
mod Tests
use tirtc_client_python.Prelude.{Bool, true, false, String, Option, none, some, if◌then◌else◌}
use tirtc_client_python.Prelude.Int.{ℤ, pos, eqb_ℤ}
use tirtc_client_python.Errors.{in_use_error}
use tirtc_client_python.Errors.Action.{
  Exception, sdk, builtin, assertion_error, Result, ok, err, Action, pure, raise_if, ◌>>=◌, ◌>>◌,
}
use tirtc_client_python.Lifecycle.{copy_error}
use tirtc_client_python.Calls.{
  Sdk, Held, Call, change, reads, require_process, retry_result, retry_in_use, failure_of,
}
use tirtc_client_python.Calls.Closing.{Closable, Ended, free, closing}
use tirtc_client_python.Tasks.Media.{RecordingFile, new_file}

-- `listed` is whether the parent's `_tasks` holds the task.
pub record Recording : Type 0 where
  pub result : Option RecordingFile
  pub error : Option Exception
  pub stopped : Bool
  pub parent_finished : Bool
  pub listed : Bool

unfoldable pub prepared_recording : Recording
prepared_recording = record {
  result = none;
  error = none;
  stopped = false;
  parent_finished = false;
  listed = true;
}

-- What the end of a stop gives: the kept error, copied, or the kept file.
unfoldable pub recorded_of : Option Exception → Option RecordingFile → Result RecordingFile
unfolding copy_error
recorded_of (some e) file = err (copy_error e)
recorded_of none (some f) = ok f
recorded_of none none = err (builtin assertion_error "")

module _ {N : Type 0} (native : Sdk N) (recording_stop : N → (ℤ × (String × ℤ)) × N)
    (native_close : N → ℤ × N) where
  unfoldable pub recorded : Call Recording N RecordingFile
  unfolding recorded_of
  recorded s = (recorded_of s.self.error s.self.result, s)

  unfoldable pub keep_stopped : ℤ → String → ℤ → Option Exception → Recording → Recording
  unfolding new_file
  keep_stopped code path duration_ms error t = record t {
    error = error;
    result = if eqb_ℤ code (pos 0) then some (new_file path duration_ms) else none;
    stopped = true;
  }

  -- What a native stop gave; nothing is kept where the error's name cannot be asked for.
  recording_stopped : ℤ × (String × ℤ) → Call Recording N (Unit {0})
  unfolding failure_of keep_stopped
  recording_stopped (code, (path, duration_ms)) =
      (λ s. (failure_of native code s.world, s)) >>= λ e.
      change (keep_stopped code path duration_ms e)

  stop_recording : Bool → Call Recording N (Unit {0})
  unfolding retry_result recording_stopped
  stop_recording true = pure tt
  stop_recording false = retry_result native (λ v. v.0) recording_stop >>= recording_stopped

  leave_parent : Recording → Recording
  leave_parent t =
      if t.parent_finished then t else record t { listed = false; parent_finished = true }

  stop_body : Call Recording N (Option Exception)
  unfolding stop_recording retry_in_use leave_parent
  stop_body =
      reads (λ t. t.stopped)
      >>= stop_recording
      >> retry_in_use native native_close
      >> change leave_parent
      >> reads (λ t. t.error)

  -- `RecordingTask.stop`; `blocking` is whether the caller is a callback of the parent.
  unfoldable pub stop_recording_task : Bool → Action (Closable Recording N) (Ended RecordingFile)
  unfolding closing stop_body recorded require_process in_use_error
  stop_recording_task blocking =
      free (require_process native)
      >> raise_if blocking (sdk in_use_error)
      >> closing (λ t. t) (λ _. recorded) stop_body
