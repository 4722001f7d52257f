-- ===== src/Connection/Settling.antt =====
-- How an attempt's code settles.
use tirtc_client_python.Prelude.{
  ℕ, ◌≤◌, ◌≡◌, subst, ap, Bool, true, false, not, ◌||◌, arith, is_some,
}
use tirtc_client_python.Errors.{in_use_error}
use tirtc_client_python.Errors.Action.{Exception, sdk, Result, ok, err}
use tirtc_client_python.Errors.Fallible.{bind-ok, raise_if, ◌>>=◌}
use tirtc_client_python.Runtime.{Mode}
use tirtc_client_python.Lifecycle.{require_open}
use tirtc_client_python.Connection.{
  Connection, is_active, handle_active, handle_idle, handle_state, same_mode, managed_complete,
  with_attempt, begin_connect, connect_started, connect_refused, set_finished, finish_connect,
  cancel_begin, cancel_settle, cancel_completed, cancel_failed, cancel_ends, disconnect_ends,
  settle, settle_maybe,
}
use tirtc_client_python.Connection.System.{
  created, Reach, here, next, Step, event, completes, begins, starts, refuses, ends, finishes,
  cancels, settles, completes_cancel, fails_cancel, ends_cancel, closes, disconnects_end,
}

-- What `begin_connect` leaves where it returns.
pub record IsBegun (mode : Mode) (c : Connection) (g : ℕ) (d : Connection) : Type 0 where
  pub free : is_some c.active_connect ≡ false
  pub same : with_attempt mode c ≡ (g, d)

module _ (mode : Mode) (c : Connection) where
  busy : Exception
  busy = sdk in_use_error

  test : Bool
  test = not (same_mode c.mode mode) || is_some c.active_connect

  after_guard : Unit {0} → Result (ℕ × Connection)
  after_guard u = ok (with_attempt mode c)

  after_open : Unit {0} → Result (ℕ × Connection)
  unfolding after_guard busy test
  after_open u = raise_if test busy >>= after_guard

  passed : (u : Unit {0}) → raise_if test busy ≡ ok u → is_some c.active_connect ≡ false
  unfolding test
  passed u h = ground arith

  pub begin_connect-IsBegun :
      (g : ℕ) (d : Connection) → begin_connect mode c ≡ ok (g, d) → IsBegun mode c g d
  unfolding begin_connect after_open
  begin_connect-IsBegun g d h =
      let (u, opened, h1) = bind-ok (require_open c.close) after_open (g, d) h in
      let (v, free, h2) = bind-ok (raise_if test busy) after_guard (g, d) h1 in
      record { free = passed v free; same = ap (λ r. elim r [ ok p ↦ p | err e ↦ (g, d) ]) h2 }

-- An attempt has its event set just where it has a code, and the active one has begun.
pub record IsSound (c : Connection) : Type 0 where
  pub set : (g : ℕ) → (c.attempts g).done ≡ is_some (c.attempts g).terminal_code
  pub begun : (g : ℕ) → is_active g c.active_connect ≡ true → g ≤ c.connect_generation

begun-IsSound : (mode : Mode) (c : Connection) → IsSound c → IsSound (with_attempt mode c).1
unfolding with_attempt
begun-IsSound mode c s = record {
  set = λ h. ground (arith, s.set h);
  begun = λ h k. ground (arith, s.begun h);
}

pub Step-IsSound : {c d : Connection} → Step c d → IsSound c → IsSound d
unfolding handle_state handle_active handle_idle settle settle_maybe managed_complete
    connect_started connect_refused set_finished finish_connect cancel_begin cancel_settle
    cancel_completed cancel_failed cancel_ends disconnect_ends
Step-IsSound {c = c} (event state code) s = record {
  set = λ h. ground (arith, s.set h);
  begun = λ h k. ground (arith, s.begun h);
}
Step-IsSound {c = c} (completes g code) s = record {
  set = λ h. ground (arith, s.set h);
  begun = λ h k. ground (arith, s.begun h);
}
Step-IsSound {c = c} (begins mode g d h) s =
    let b = begin_connect-IsBegun mode c g d h in
    subst (λ p. IsSound p.1) b.same (begun-IsSound mode c s)
Step-IsSound (starts has_handle g) s = record {
  set = λ h. ground (arith, s.set h);
  begun = s.begun;
}
Step-IsSound (refuses g) s = record {
  set = λ h. ground (arith, s.set h);
  begun = λ h k. ground (arith, s.begun h);
}
Step-IsSound (ends g) s = record { set = λ h. ground (arith, s.set h); begun = s.begun }
Step-IsSound (finishes g a m) s = record {
  set = λ h. ground (arith, s.set h);
  begun = λ h k. ground (arith, s.begun h);
}
Step-IsSound (cancels g error) s = record {
  set = λ h. ground (arith, s.set h);
  begun = λ h k. ground (arith, s.begun h);
}
Step-IsSound (settles g k) s = record { set = λ h. ground (arith, s.set h); begun = s.begun }
Step-IsSound (completes_cancel g k) s = record { set = s.set; begun = s.begun }
Step-IsSound (fails_cancel g error k) s = record {
  set = λ h. ground (arith, s.set h);
  begun = s.begun;
}
Step-IsSound (ends_cancel g k) s = record { set = λ h. ground (arith, s.set h); begun = s.begun }
Step-IsSound (closes k) s = record { set = s.set; begun = s.begun }
Step-IsSound disconnects_end s = record { set = s.set; begun = s.begun }

created-IsSound : (mode : Mode) → IsSound (created mode)
unfolding created
created-IsSound mode = record { set = λ g. ground arith; begun = λ g h. ground arith }

pub Reach-IsSound : {c d : Connection} → Reach c d → IsSound c → IsSound d
Reach-IsSound here s = s
Reach-IsSound (next r step) s = Step-IsSound step (Reach-IsSound r s)

pub reached-IsSound : (mode : Mode) (c : Connection) → Reach (created mode) c → IsSound c
reached-IsSound mode c reach = Reach-IsSound reach (created-IsSound mode)
