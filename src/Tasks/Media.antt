-- ===== src/Tasks/Media.antt =====
-- src/tirtc/_core.py: `_TemporaryMediaFile`, with its lock, and RecordingFile.
pub mod Deletion
use tirtc_client_python.Prelude.{Bool, true, false, String, if◌then◌else◌}
use tirtc_client_python.Prelude.Int.{ℤ}
use tirtc_client_python.Errors.Action.{Action, pure, ◌>>=◌, ◌>>◌}
use tirtc_client_python.Calls.{Sdk, Held, Call, reads, change, checked, require_process}

pub record RecordingFile : Type 0 where
  pub path : String
  pub duration_ms : ℤ
  pub deleted : Bool

unfoldable pub new_file : String → ℤ → RecordingFile
new_file path duration_ms = record { path = path; duration_ms = duration_ms; deleted = false }

unfoldable pub mark_deleted : RecordingFile → RecordingFile
mark_deleted f = record f { deleted = true }

module _ {N : Type 0} (native : Sdk N) (delete_media_file : String → N → ℤ × N) where
  delete_locked : Call RecordingFile N (Unit {0})
  unfolding checked mark_deleted
  delete_locked s =
      if s.self.deleted
      then pure tt s
      else (checked native (delete_media_file s.self.path) >> change mark_deleted) s

  -- `_TemporaryMediaFile.delete`
  unfoldable pub delete : Call RecordingFile N (Unit {0})
  unfolding delete_locked require_process
  delete = require_process native >> delete_locked
