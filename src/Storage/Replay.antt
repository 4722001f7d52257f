-- ===== src/Storage/Replay.antt =====
-- src/tirtc/storage/__init__.py: Replay. `related` is whether the caller is a callback of the replay
-- or of an output that is bound to it, and `lock_free` whether its lock could be had at once.
pub mod Owned
mod Ranges
mod Tests
use Prim.Native.String.{String}
use tirtc_client_python.Prelude.{
  ℕ, Bool, true, false, not, ◌&&◌, ◌||◌, Option, none, some, List, [], ◌∷◌, ◌==◌, keep_if,
  if◌then◌else◌,
}
use tirtc_client_python.Prelude.Int.{ℤ, pos, negsuc, ltb_ℤ, leb_ℤ}
use tirtc_client_python.Errors.{TirtcError, in_use_error}
use tirtc_client_python.Errors.Action.{
  Exception, sdk, builtin, type_error, value_error, Result, ok, err, Action, pure, lift, raise_if,
  ◌>>=◌, ◌>>◌,
}
use tirtc_client_python.Objects.{Object}
use tirtc_client_python.Util.Validate.{channel_id}
use tirtc_client_python.Util.Moments.{TimeArgument, datetime_ms, datetime_from_ms}
use tirtc_client_python.Calls.{
  Sdk, Held, Call, outside, change, reads, checks, caught, require_process, expect_zero, checked,
  checked_value, retry_in_use,
}
use tirtc_client_python.Calls.Closing.{Closable, Ended, outcome_result, opened, free, closing}
use tirtc_client_python.Children.{Children, without_id, calls, for_each, close_each}
use tirtc_client_python.Storage.Values.{
  NativeGap, RecordingGap, recording_gap_from_native, ReplaySpeed, x1, speed_to_native,
  speed_from_native,
}

-- `listed` is whether the parent's `_replays` holds the replay.
pub record Replay : Type 0 where
  pub speed : ReplaySpeed
  pub outputs : List ℕ
  pub tasks : List ℕ
  pub dumps : List ℕ
  pub native_stopped : Bool
  pub parent_finished : Bool
  pub listed : Bool
  pub dispatcher_closed : Bool
  pub playback_range : Option (ℤ × ℤ)

-- What a replay calls outside it. `stop_recording` is `stop` of a task and `delete` of its file.
pub record Native (N : Type 0) : Type 0 where
  pub base : Sdk N
  pub replay_play : ℤ → ℤ → ℤ → N → ℤ × N
  pub replay_pause : N → ℤ × N
  pub replay_resume : N → ℤ × N
  pub replay_seek : ℤ → N → ℤ × N
  pub replay_set_speed : ℤ → N → ℤ × N
  pub replay_get_speed : N → (ℤ × ℤ) × N
  pub replay_current_time : N → (ℤ × (Bool × ℤ)) × N
  pub replay_stop : N → ℤ × N
  pub close : N → ℤ × N
  pub storage_recording_start : ℤ → ℤ → N → ℤ × N
  pub storage_raw_dump_start : List ℤ → List ℤ → N → (ℤ × ℕ) × N
  pub dumps : Children N
  pub stop_recording : ℕ → N → Result (Unit {0}) × N
  pub detach_output : ℕ → N → Result (Unit {0}) × N

unfoldable pub prepared_replay : Replay
prepared_replay = record {
  speed = x1;
  outputs = [];
  tasks = [];
  dumps = [];
  native_stopped = false;
  parent_finished = false;
  listed = true;
  dispatcher_closed = false;
  playback_range = none;
}

-- What the user's callbacks are told, or what the handler raises.
pub data ReplayTold : Type 0 where
  nothing : ReplayTold
  told_time : ℤ → ReplayTold
  told_completed : ReplayTold
  told_error : TirtcError → ReplayTold
  told_gap : RecordingGap → ReplayTold
  handler_raised : Exception → ReplayTold

pub data ReplayEvent : Type 0 where
  time : ℤ → ReplayEvent
  completed : ReplayEvent
  error : ℤ → ReplayEvent
  gap : NativeGap → ReplayEvent

abbrev told : {A : Type 0} → (A → ReplayTold) → Result A → ReplayTold
told f (ok a) = f a
told f (err e) = handler_raised e

-- `_handle_event`, with the callbacks that are given, and which keeps no state.
unfoldable pub handle_replay_event :
    (ℤ → TirtcError) → (on_time on_completed on_error on_gap : Bool) → ReplayEvent → ReplayTold
unfolding datetime_from_ms recording_gap_from_native
handle_replay_event error_of on_time on_completed on_error on_gap (time ms) =
    if on_time then told told_time (datetime_from_ms ms) else nothing
handle_replay_event error_of on_time on_completed on_error on_gap completed =
    if on_completed then told_completed else nothing
handle_replay_event error_of on_time on_completed on_error on_gap (error code) =
    if on_error then told_error (error_of code) else nothing
handle_replay_event error_of on_time on_completed on_error on_gap (gap v) =
    if on_gap then told told_gap (recording_gap_from_native v) else nothing

module _ {N : Type 0} (native : Native N) where
  -- `_operation_lock`, where the lock is then held.
  operation_lock : Bool → Bool → Action (Closable Replay N) (Unit {0})
  unfolding in_use_error
  operation_lock related lock_free = raise_if (related && not lock_free) (sdk in_use_error)

  -- `_reject_blocking_callback`
  reject_blocking : Bool → Action (Closable Replay N) (Unit {0})
  unfolding in_use_error
  reject_blocking related = raise_if related (sdk in_use_error)

  replay_process : Action (Closable Replay N) (Unit {0})
  unfolding require_process
  replay_process = free (require_process native.base)

  call_native : Bool → (N → ℤ × N) → Call Replay N (Unit {0})
  unfolding checked retry_in_use
  call_native true f = checked native.base f
  call_native false f = retry_in_use native.base f

  -- `_operation`
  unfoldable pub operation : Bool → Bool → (N → ℤ × N) → Action (Closable Replay N) (Unit {0})
  unfolding replay_process operation_lock call_native
  operation related lock_free f =
      replay_process >> operation_lock related lock_free >> opened (call_native related f)

  unfoldable pub pause : Bool → Bool → Action (Closable Replay N) (Unit {0})
  unfolding operation
  pause related lock_free = operation related lock_free native.replay_pause

  unfoldable pub resume : Bool → Bool → Action (Closable Replay N) (Unit {0})
  unfolding operation
  resume related lock_free = operation related lock_free native.replay_resume

  initial_ms : ℤ → Option TimeArgument → Result ℤ
  unfolding datetime_ms
  initial_ms start none = ok start
  initial_ms start (some t) = datetime_ms t "initial_time"

  keep_range : ℤ → ℤ → Replay → Replay
  keep_range start end t = record t { playback_range = some (start, end); native_stopped = false }

  play_now : ℤ → ℤ → ℤ → Call Replay N (Unit {0})
  unfolding checked keep_range
  play_now start end initial =
      checked native.base (native.replay_play start end initial) >> change (keep_range start end)

  play_from : ℤ → ℤ → ℤ → Action (Closable Replay N) (Unit {0})
  unfolding play_now
  play_from start end initial =
      raise_if (ltb_ℤ initial start || leb_ℤ end initial)
        (builtin value_error "initial_time must be inside the playback range")
      >> opened (play_now start end initial)

  play_between : ℤ → ℤ → Option TimeArgument → Action (Closable Replay N) (Unit {0})
  unfolding initial_ms play_from
  play_between start end initial_time =
      raise_if (leb_ℤ end start) (builtin value_error "start_time must be before end_time")
      >> lift (initial_ms start initial_time)
      >>= play_from start end

  play_start : TimeArgument → Option TimeArgument → ℤ → Action (Closable Replay N) (Unit {0})
  unfolding datetime_ms play_between
  play_start end_time initial_time start =
      lift (datetime_ms end_time "end_time") >>= λ end. play_between start end initial_time

  unfoldable pub play :
      Bool
      → TimeArgument
      → TimeArgument
      → Option TimeArgument
      → Action (Closable Replay N) (Unit {0})
  unfolding replay_process reject_blocking datetime_ms play_start
  play related start_time end_time initial_time =
      replay_process
      >> reject_blocking related
      >> lift (datetime_ms start_time "start_time")
      >>= play_start end_time initial_time

  abbrev outside_range : ℤ → Option (ℤ × ℤ) → Bool
  outside_range target none = false
  outside_range target (some (start, end)) = ltb_ℤ target start || leb_ℤ end target

  seek_locked : ℤ → Call Replay N (Unit {0})
  unfolding retry_in_use
  seek_locked target =
      checks (λ t. outside_range target t.playback_range)
        (builtin value_error "target must be inside the playback range")
      >> retry_in_use native.base (native.replay_seek target)

  unfoldable pub seek : Bool → TimeArgument → Action (Closable Replay N) (Unit {0})
  unfolding replay_process reject_blocking datetime_ms seek_locked
  seek related target =
      replay_process >> reject_blocking related >> lift (datetime_ms target "target") >>= λ ms.
      opened (seek_locked ms)

  speed_given : Option ReplaySpeed → Result ReplaySpeed
  speed_given none = err (builtin type_error "speed must be ReplaySpeed")
  speed_given (some s) = ok s

  speed_locked : Bool → ReplaySpeed → Call Replay N (Unit {0})
  unfolding call_native speed_to_native
  speed_locked related speed =
      call_native related (native.replay_set_speed (speed_to_native speed))
      >> change (λ t. record t { speed = speed })

  -- `set_speed`, of a speed or of anything else.
  unfoldable pub set_speed :
      Bool → Bool → Option ReplaySpeed → Action (Closable Replay N) (Unit {0})
  unfolding replay_process operation_lock speed_given speed_locked
  set_speed related lock_free speed = replay_process >> lift (speed_given speed) >>= λ s.
      operation_lock related lock_free >> opened (speed_locked related s)

  store_speed : ReplaySpeed → Call Replay N ReplaySpeed
  store_speed s = change (λ t. record t { speed = s }) >> pure s

  read_speed : ℤ → Call Replay N ReplaySpeed
  unfolding speed_from_native store_speed
  read_speed v = lift (speed_from_native v) >>= store_speed

  -- The property `speed`.
  unfoldable pub get_speed : Bool → Bool → Action (Closable Replay N) ReplaySpeed
  unfolding replay_process operation_lock checked_value read_speed
  get_speed related lock_free =
      replay_process
      >> operation_lock related lock_free
      >> opened (checked_value native.base native.replay_get_speed >>= read_speed)

  time_read : ℤ × (Bool × ℤ) → Call Replay N (Option ℤ)
  unfolding expect_zero datetime_from_ms
  time_read (code, (present, value)) =
      expect_zero native.base code
      >> (if present then lift (datetime_from_ms value) >>= (λ t. pure (some t)) else pure none)

  -- `current_time`, whose code is checked once the lock is given back.
  unfoldable pub current_time : Bool → Bool → Action (Closable Replay N) (Option ℤ)
  unfolding replay_process operation_lock time_read
  current_time related lock_free =
      replay_process
      >> operation_lock related lock_free
      >> opened (outside native.replay_current_time)
      >>= λ v. free (time_read v)

  stop_locked : Call Replay N (Unit {0})
  unfolding retry_in_use
  stop_locked =
      retry_in_use native.base native.replay_stop
      >> change (λ t. record t { native_stopped = true })

  unfoldable pub stop_replay : Bool → Action (Closable Replay N) (Unit {0})
  unfolding replay_process reject_blocking stop_locked
  stop_replay related = replay_process >> reject_blocking related >> opened stop_locked
