-- ===== src/Connection.antt =====
-- src/tirtc/_core.py: the attempts to connect of a `Connection`. Every section under the
-- connection's lock is one function; `code_error` is `_error_from_code(code, _error_name(code))`.
mod Sends
mod System
mod Settling
mod Evolution
mod Over
mod Results
mod Failures
mod Tests
use tirtc_client_python.Prelude.{
  ℕ, suc, Bool, true, false, not, ◌&&◌, ◌||◌, Option, none, some, ◌==◌, if◌then◌else◌, is_some,
}
use tirtc_client_python.Prelude.Int.{ℤ, pos, eqb_ℤ}
use tirtc_client_python.Errors.{in_use_error}
use tirtc_client_python.Errors.Action.{Exception, sdk, Result, ok, err}
use tirtc_client_python.Errors.Fallible.{◌>>=◌, raise_if}
use tirtc_client_python.Lifecycle.{Coordinator, copy_error, require_open}
use tirtc_client_python.Runtime.{Mode, access_key, external_token}

pub data ConnectionState : Type 0 where
  idle connecting connected disconnected : ConnectionState

-- `_ConnectState`: the events as truth values, and `has_handle` for `managed_handle`.
pub record Attempt : Type 0 where
  pub managed : Bool
  pub done : Bool
  pub finished : Bool
  pub native_started : Bool
  pub error : Option Exception
  pub terminal_code : Option ℤ
  pub has_handle : Bool
  pub cancelling : Bool
  pub cancel_error : Option Exception
  pub cancel_finished : Bool

-- `attempts` keeps every attempt by its generation.
pub record Connection : Type 0 where
  pub mode : Mode
  pub close : Coordinator
  pub state : ConnectionState
  pub disconnect_finished : Bool
  pub connect_generation : ℕ
  pub active_connect : Option ℕ
  pub attempts : ℕ → Attempt

unfoldable pub new_attempt : Bool → Attempt
new_attempt managed = record {
  managed = managed;
  done = false;
  finished = false;
  native_started = false;
  error = none;
  terminal_code = none;
  has_handle = false;
  cancelling = false;
  cancel_error = none;
  cancel_finished = false;
}

abbrev pub is_active : ℕ → Option ℕ → Bool
is_active g none = false
is_active g (some h) = g == h

-- A write to the fields of one attempt.
abbrev pub update : ℕ → (Attempt → Attempt) → Connection → Connection
update g f c = record c { attempts = λ h. if g == h then f (c.attempts h) else c.attempts h }

abbrev pub is_connected : ConnectionState → Bool
is_connected connected = true
is_connected _ = false

abbrev pub is_connecting : ConnectionState → Bool
is_connecting connecting = true
is_connecting _ = false

abbrev pub is_disconnected : ConnectionState → Bool
is_disconnected disconnected = true
is_disconnected _ = false

abbrev pub same_state : ConnectionState → ConnectionState → Bool
same_state idle idle = true
same_state connecting connecting = true
same_state connected connected = true
same_state disconnected disconnected = true
same_state _ _ = false

abbrev pub is_zero : ℤ → Bool
is_zero code = eqb_ℤ code (pos 0)

-- The test before an event is taken in: nothing final yet, or connected and now `worse`.
abbrev pub may_settle : Option ℤ → Bool → Bool
may_settle none worse = true
may_settle (some terminal) worse = is_zero terminal && worse

settle : ℤ → Attempt → Attempt
settle code a = record a { terminal_code = some code; done = true }

-- What a state event makes of the attempt that is active.
event_code : ConnectionState → ℤ → Option ℤ
event_code state code =
    if is_connected state && is_zero code
    then some (pos 0)
    else if not (is_zero code) || is_disconnected state
    then some (if is_zero code then pos 6012 else code)
    else none

settle_maybe : Option ℤ → Attempt → Attempt
unfolding settle
settle_maybe none a = a
settle_maybe (some code) a = settle code a

-- `_handle_event` of a state: what the handler is then told, if anything.
handle_active : ℕ → ConnectionState → ℤ → Connection → Connection
unfolding settle_maybe event_code
handle_active g state code c =
    if may_settle (c.attempts g).terminal_code (not (is_zero code) || is_disconnected state)
    then update g (settle_maybe (event_code state code)) (record c { state = state })
    else c

handle_idle : ConnectionState → ℤ → Connection → Connection × Option (ConnectionState × Option ℤ)
handle_idle state code c = if is_connected c.state && is_connecting state then (c, none) else (
  record c { state = state },
  if not (same_state c.state state) || not (is_zero code)
      then some (state, if is_zero code then none else some code)
      else none,
)

unfoldable pub handle_state :
    ConnectionState → ℤ → Connection → Connection × Option (ConnectionState × Option ℤ)
unfolding handle_active handle_idle
handle_state state code c = elim c.active_connect [
  | some g ↦ (handle_active g state code c, none)
  | none ↦ handle_idle state code c
]

unfoldable pub managed_complete : ℕ → ℤ → Connection → Connection
unfolding settle
managed_complete g code c =
    if is_active g c.active_connect && may_settle (c.attempts g).terminal_code (not (is_zero code))
    then update g (settle code) c
    else c

abbrev pub same_mode : Mode → Mode → Bool
same_mode access_key access_key = true
same_mode external_token external_token = true
same_mode _ _ = false

abbrev pub is_managed : Mode → Bool
is_managed access_key = true
is_managed external_token = false

-- The connection with a new attempt, and the attempt's generation.
unfoldable pub with_attempt : Mode → Connection → ℕ × Connection
unfolding new_attempt
with_attempt mode c = (
  suc c.connect_generation,
  update (suc c.connect_generation) (λ a. new_attempt (is_managed mode))
      (record c {
        connect_generation = suc c.connect_generation;
        active_connect = some (suc c.connect_generation);
        state = connecting;
        disconnect_finished = false;
      }),
)

-- `_begin_connect` under the lock.
unfoldable pub begin_connect : Mode → Connection → Result (ℕ × Connection)
unfolding with_attempt require_open
begin_connect expected_mode c = do
  opened ← require_open c.close
  free ←
      raise_if (not (same_mode c.mode expected_mode) || is_some c.active_connect) (sdk in_use_error)
  ok (with_attempt expected_mode c)

-- `connect` after its native call. Where that succeeded, and where it raised: the event that it
-- started, the section under the lock, and the event that the attempt has finished.
unfoldable pub connect_started : Bool → ℕ → Connection → Connection
connect_started has_handle g c =
    update g (λ a. record a { has_handle = has_handle; native_started = true }) c

unfoldable pub connect_refused : ℕ → Connection → Connection
connect_refused g c =
    if is_active g c.active_connect then record c { active_connect = none; state = idle } else c

unfoldable pub set_finished : ℕ → Connection → Connection
set_finished g c = update g (λ a. record a { finished = true }) c

-- `code == 0 and attempt.error is None`
abbrev pub succeeds : Option Exception → Option ℤ → Bool
succeeds error none = false
succeeds error (some code) = is_zero code && not (is_some error)

abbrev pub is_success : Attempt → Bool
is_success a = succeeds a.error a.terminal_code

-- The section of `_finish_connect`.
unfoldable pub finish_connect : ℕ → Connection → Connection
unfolding set_finished
finish_connect g c =
    let success = is_success (c.attempts g) in
    set_finished g (record c {
      active_connect = if is_active g c.active_connect then none else c.active_connect;
      state = if success then connected else disconnected;
      disconnect_finished = if success then c.disconnect_finished else true;
    })

-- What `_wait_connect` raises or returns after `_finish_connect`.
pub raised_by : (ℤ → Exception) → Option Exception → Option ℤ → Result (Unit {0})
raised_by code_error (some e) terminal_code = err (copy_error e)
raised_by code_error none none = ok tt
raised_by code_error none (some code) = if is_zero code then ok tt else err (code_error code)

unfoldable pub connect_result : (ℤ → Exception) → Attempt → Result (Unit {0})
unfolding raised_by
connect_result code_error a = raised_by code_error a.error a.terminal_code

close_managed : Bool → Result (Unit {0}) → Result (Unit {0})
close_managed has_handle closing = if has_handle then closing else ok tt

raise_cancelled : Option Exception → Result (Unit {0})
raise_cancelled none = ok tt
raise_cancelled (some e) = err (copy_error e)

-- What `_wait_connect` comes to from the end of its waits on: the error of a cancellation that
-- failed, that of `closing`, the native close of a managed handle, or what follows
-- `_finish_connect`.
unfoldable pub wait_result :
    (ℤ → Exception) → (closing : Result (Unit {0})) → Attempt → Result (Unit {0})
unfolding raise_cancelled close_managed connect_result
wait_result code_error closing a = do
  cancelled ← raise_cancelled a.cancel_error
  handle_closed ← close_managed a.has_handle closing
  connect_result code_error a

-- `_cancel_connect`: what its first section decides.
pub data Cancel : Type 0 where
  returns waits performs : Cancel

unfoldable pub cancel_begin : ℕ → Exception → Connection → Connection × Cancel
cancel_begin g error c =
    if not (is_active g c.active_connect)
    then (c, returns)
    else if is_some (c.attempts g).terminal_code
    then (c, returns)
    else if (c.attempts g).cancelling
    then (c, waits)
    else (update g (λ a. record a { error = some error; cancelling = true }) c, performs)

-- What the thread that performs it goes on to, once the native call has started.
pub data Cancelling : Type 0 where
  nothing cancels_attempt disconnects : Cancelling

unfoldable pub cancel_kind : Attempt → Cancelling
cancel_kind a =
    if a.finished
    then nothing
    else if not a.managed
    then disconnects
    else if a.has_handle
    then cancels_attempt
    else nothing

-- The section after `conn_disconnect` of an attempt that is not managed.
unfoldable pub cancel_settle : ℕ → Connection → Connection
cancel_settle g c =
    update g
      (λ a. record a {
        terminal_code = if is_some a.terminal_code then a.terminal_code else some (pos 6115);
        done = true;
      })
      c

-- The last section, and the `finally`; or an exception, and the `finally`.
unfoldable pub cancel_completed : Connection → Connection
cancel_completed c = record c { disconnect_finished = true }

unfoldable pub cancel_failed : ℕ → Exception → Connection → Connection
cancel_failed g error c = update g (λ a. record a { cancel_error = some error }) c

unfoldable pub cancel_ends : ℕ → Connection → Connection
cancel_ends g c = update g (λ a. record a { cancel_finished = true }) c

-- The end of `disconnect`.
unfoldable pub disconnect_ends : Connection → Connection
disconnect_ends c = record c { state = disconnected; disconnect_finished = true }
