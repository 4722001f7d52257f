-- ===== src/Connection/System.antt =====
-- Any number of threads that call one connection, and its events, as sections in any order. A
-- section is allowed wherever the code may run it; the waits that precede one are its conditions.
use tirtc_client_python.Prelude.{ℕ, Bool, true, false, not, ◌&&◌, ◌||◌, none, ◌≡◌, is_some}
use tirtc_client_python.Prelude.Int.{ℤ}
use tirtc_client_python.Errors.Action.{Exception, ok}
use tirtc_client_python.Lifecycle.{Coordinator, new}
use tirtc_client_python.Runtime.{Mode}
use tirtc_client_python.Connection.{
  ConnectionState, idle, Attempt, Connection, new_attempt, is_active, handle_state,
  managed_complete, begin_connect, connect_started, connect_refused, set_finished, finish_connect,
  cancel_begin, cancel_settle, cancel_completed, cancel_failed, cancel_ends, disconnect_ends,
}

unfoldable pub created : Mode → Connection
unfolding new new_attempt
created mode = record {
  mode = mode;
  close = new;
  state = idle;
  disconnect_finished = false;
  connect_generation = 0;
  active_connect = none;
  attempts = λ g. new_attempt false;
}

-- A cancellation has begun and its `finally` has not run.
abbrev pub is_cancelling : Attempt → Bool
is_cancelling a = a.cancelling && not a.cancel_finished

-- `_wait_connect` comes to `_finish_connect` where the attempt is done, or the wait for that timed
-- out and the cancellation returned; where no cancellation runs; and where none has failed.
abbrev pub may_finish : Attempt → Bool
may_finish a = (a.done || is_some a.error) && not (is_cancelling a) && not (is_some a.cancel_error)

pub data Step (c : Connection) : Connection → Type 0 where
  event : (state : ConnectionState) (code : ℤ) → Step c (handle_state state code c).0
  completes : (g : ℕ) (code : ℤ) → Step c (managed_complete g code c)
  begins : (mode : Mode) (g : ℕ) (d : Connection) → begin_connect mode c ≡ ok (g, d) → Step c d
  starts : (has_handle : Bool) (g : ℕ) → Step c (connect_started has_handle g c)
  refuses : (g : ℕ) → Step c (connect_refused g c)
  ends : (g : ℕ) → Step c (set_finished g c)
  finishes :
      (g : ℕ)
      → is_active g c.active_connect ≡ true
      → may_finish (c.attempts g) ≡ true
      → Step c (finish_connect g c)
  cancels : (g : ℕ) (error : Exception) → Step c (cancel_begin g error c).0
  settles : (g : ℕ) → is_cancelling (c.attempts g) ≡ true → Step c (cancel_settle g c)
  completes_cancel : (g : ℕ) → is_cancelling (c.attempts g) ≡ true → Step c (cancel_completed c)
  fails_cancel :
      (g : ℕ) (error : Exception)
      → is_cancelling (c.attempts g) ≡ true
      → Step c (cancel_failed g error c)
  ends_cancel : (g : ℕ) → is_cancelling (c.attempts g) ≡ true → Step c (cancel_ends g c)
  closes : (k : Coordinator) → Step c (record c { close = k })
  disconnects_end : Step c (disconnect_ends c)

pub data Reach (c : Connection) : Connection → Type 0 where
  here : Reach c c
  next : {d e : Connection} → Reach c d → Step d e → Reach c e
