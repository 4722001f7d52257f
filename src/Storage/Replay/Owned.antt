-- ===== src/Storage/Replay/Owned.antt =====
-- src/tirtc/storage/__init__.py: the recordings, raw dumps and outputs of a Replay, and its `close`.
use tirtc_client_python.Prelude.{ℕ, Bool, true, false, Option, none, some, List, ◌∷◌, if◌then◌else◌}
use tirtc_client_python.Prelude.Int.{ℤ, negsuc}
use tirtc_client_python.Errors.Action.{
  Exception, builtin, type_error, Result, ok, err, Action, pure, lift, ◌>>=◌, ◌>>◌,
}
use tirtc_client_python.Objects.{Object}
use tirtc_client_python.Util.Validate.{channel_id}
use tirtc_client_python.Calls.{Held, Call, change, caught, checked, checked_value, retry_in_use}
use tirtc_client_python.Calls.Closing.{Closable, Ended, outcome_result, opened, closing}
use tirtc_client_python.Children.{without_id, Children, for_each, close_each}
use tirtc_client_python.Storage.Replay.{
  Replay, Native, replay_process, operation_lock, reject_blocking,
}

-- `_finish_task`, `_finish_raw_dump`, and `_detach` with `_attach_failed`.
unfoldable pub finish_recording : ℕ → Replay → Replay
finish_recording task t = record t { tasks = without_id task t.tasks }

unfoldable pub finish_raw_dump : ℕ → Replay → Replay
finish_raw_dump dump t = record t { dumps = without_id dump t.dumps }

unfoldable pub drop_output : ℕ → Replay → Replay
drop_output output t = record t { outputs = without_id output t.outputs }

module _ {N : Type 0} (native : Native N) where
  -- What a failed start does before it raises again.
  undo_task : ℕ → Result (Unit {0}) → Call Replay N (Unit {0})
  unfolding finish_recording
  undo_task task (ok u) = pure tt
  undo_task task (err e) = change (finish_recording task) >> lift (err e)

  recording_locked : ℕ → ℤ → ℤ → Call Replay N (Unit {0})
  unfolding checked undo_task
  recording_locked task video audio =
      change (λ t. record t { tasks = task ∷ t.tasks })
      >> caught (checked native.base (native.storage_recording_start video audio))
      >>= undo_task task

  replay_audio : Option Object → Result ℤ
  unfolding channel_id
  replay_audio none = ok (negsuc 0)
  replay_audio (some audio) = channel_id audio "audio_channel_id"

  recording_at : Bool → Bool → ℕ → ℤ → ℤ → Action (Closable Replay N) (Unit {0})
  unfolding operation_lock recording_locked
  recording_at related lock_free task video audio =
      operation_lock native related lock_free >> opened (recording_locked task video audio)

  -- `start_recording`, where `task` is the new object.
  unfoldable pub start_recording :
      Bool → Bool → ℕ → Object → Option Object → Action (Closable Replay N) (Unit {0})
  unfolding replay_process channel_id replay_audio recording_at
  start_recording related lock_free task video_channel_id audio_channel_id =
      replay_process native >> lift (channel_id video_channel_id "video_channel_id") >>= λ video.
      lift (replay_audio audio_channel_id) >>= recording_at related lock_free task video

  add_dump : ℕ → Call Replay N ℕ
  add_dump dump = change (λ t. record t { dumps = dump ∷ t.dumps }) >> pure dump

  options_given : Option (List ℤ × List ℤ) → Result (List ℤ × List ℤ)
  options_given none = err (builtin type_error "options must be RawDumpOptions")
  options_given (some options) = ok options

  dump_at : Bool → List ℤ × List ℤ → Action (Closable Replay N) ℕ
  unfolding reject_blocking checked_value add_dump
  dump_at related (audio, video) =
      reject_blocking native related
      >> opened (checked_value native.base (native.storage_raw_dump_start audio video) >>= add_dump)

  -- `start_raw_dump`, of RawDumpOptions or of anything else.
  unfoldable pub start_raw_dump : Bool → Option (List ℤ × List ℤ) → Action (Closable Replay N) ℕ
  unfolding replay_process options_given dump_at
  start_raw_dump related options =
      replay_process native >> lift (options_given options) >>= dump_at related

  -- `_attach`
  unfoldable pub attach_output : Bool → Bool → ℕ → Action (Closable Replay N) (Unit {0})
  unfolding replay_process operation_lock
  attach_output related lock_free output =
      replay_process native
      >> operation_lock native related lock_free
      >> opened (change (λ t. record t { outputs = output ∷ t.outputs }))

  -- The raw dumps with the `_finish_raw_dump` at the end of their close.
  unfoldable pub replay_dumps : Children (Held Replay N)
  unfolding finish_raw_dump
  replay_dumps = record {
    close_child = λ c s.
        let (r, n) = native.dumps.close_child c s.world in
        (
          r,
          record {
            self = if native.dumps.child_closed c n then finish_raw_dump c s.self else s.self;
            world = n;
          },
        );
    child_closed = λ c s. native.dumps.child_closed c s.world;
  }

  stop_if : Bool → Call Replay N (Unit {0})
  unfolding retry_in_use
  stop_if true = pure tt
  stop_if false =
      retry_in_use native.base native.replay_stop
      >> change (λ t. record t { native_stopped = true })

  stop_unstopped : Call Replay N (Unit {0})
  unfolding stop_if
  stop_unstopped s = stop_if s.self.native_stopped s

  finish_replay_parent : Replay → Replay
  finish_replay_parent t =
      if t.parent_finished then t else record t { listed = false; parent_finished = true }

  -- What follows the raw dumps, the `tasks` and `outputs` being those of the start.
  close_rest : List ℕ → List ℕ → Call Replay N (Unit {0})
  unfolding stop_unstopped retry_in_use finish_replay_parent
  close_rest tasks outputs =
      for_each native.stop_recording tasks
      >> for_each native.detach_output outputs
      >> stop_unstopped
      >> change (λ t. record t { dispatcher_closed = true })
      >> retry_in_use native.base native.close
      >> change finish_replay_parent

  replay_body : Call Replay N (Option Exception)
  unfolding close_each replay_dumps close_rest
  replay_body s =
      (close_each replay_dumps s.self.dumps none >>= λ e.
      close_rest s.self.tasks s.self.outputs >> pure e)
        s

  replay_result : Option Exception → Call Replay N (Unit {0})
  replay_result outcome = lift (outcome_result outcome)

  -- `_close_replay`, and `close` before it.
  unfoldable pub close_replay : Bool → Action (Closable Replay N) (Ended (Unit {0}))
  unfolding reject_blocking closing replay_body replay_result
  close_replay related =
      reject_blocking native related >> closing (λ t. t) replay_result replay_body

  unfoldable pub close_checked : Bool → Action (Closable Replay N) (Ended (Unit {0}))
  unfolding replay_process close_replay
  close_checked related = replay_process native >> close_replay related
