-- ===== src/Tasks/Recording/Tests.antt =====
-- A recording that is stopped, with the theorems at it.
use tirtc_client_python.Prelude.{ℕ, String, ◌≡◌, refl, false}
use tirtc_client_python.Prelude.Int.{ℤ, pos}
use tirtc_client_python.Lifecycle.{new, begin}
use tirtc_client_python.Calls.Closing.{Closable}
use tirtc_client_python.Calls.Sample.{base, succeeds_now}
use tirtc_client_python.Util.Retry.{retry_in_use_result}
use tirtc_client_python.Tasks.Media.{RecordingFile, new_file}
use tirtc_client_python.Tasks.Recording.{Recording, prepared_recording, stop_recording_task}
use tirtc_client_python.Tasks.Recording.Once.{Keeps, stop_recording_task-Keeps}

abbrev native_stop : ℕ → (ℤ × (String × ℤ)) × ℕ
native_stop n = ((pos 0, ("/tmp/a.mp4", pos 1500)), n)

abbrev other_stop : ℕ → (ℤ × (String × ℤ)) × ℕ
other_stop n = ((pos 6001, ("", pos 0)), n)

abbrev running : Closable Recording ℕ
unfolding prepared_recording new
running = record { coordinator = new; object = record { self = prepared_recording; world = 0 } }

abbrev file : RecordingFile
unfolding new_file
file = new_file "/tmp/a.mp4" (pos 1500)

abbrev stopped : Closable Recording ℕ
unfolding stop_recording_task
stopped = (stop_recording_task base native_stop succeeds_now false running).1

stop_recording_task-Keeps_example :
    (stop_recording_task base native_stop succeeds_now false stopped
      ≡ stop_recording_task base other_stop succeeds_now false stopped)
    × Keeps stopped.object.self
        (stop_recording_task base native_stop succeeds_now false stopped).1.object.self
unfolding stop_recording_task begin running retry_in_use_result
stop_recording_task-Keeps_example =
    stop_recording_task-Keeps base native_stop other_stop succeeds_now false stopped refl
