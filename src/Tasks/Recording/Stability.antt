-- ===== src/Tasks/Recording/Stability.antt =====
-- What a recording that was stopped gives, and that it goes on to give it.
use tirtc_client_python.Prelude.{Bool, String}
use tirtc_client_python.Prelude.Int.{ℤ}
use tirtc_client_python.Errors.Action.{Result}
use tirtc_client_python.Calls.{Sdk}
use tirtc_client_python.Calls.Closing.{Closable, Ended, closing}
use tirtc_client_python.Tasks.Media.{RecordingFile}
use tirtc_client_python.Tasks.Recording.{Recording, recorded, stop_body, stop_recording_task}

module _ {N : Type 0} (native : Sdk N) (recording_stop : N → (ℤ × (String × ℤ)) × N)
    (native_close : N → ℤ × N) where
  abbrev Stop : Bool → Closable Recording N → Result (Ended RecordingFile) × Closable Recording N
  Stop blocking s = stop_recording_task native recording_stop native_close blocking s

  abbrev Closes : Closable Recording N → Result (Ended RecordingFile) × Closable Recording N
  Closes s =
      closing (λ r. r) (λ _. recorded native recording_stop native_close)
        (stop_body native recording_stop native_close) s
