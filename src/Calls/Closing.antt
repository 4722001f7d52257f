-- ===== src/Calls/Closing.antt =====
-- What every `close` does with its coordinator (src/tirtc/_lifecycle.py): the generation is begun
-- under the lock, the body runs, and `fail` or `succeed` reports what it came to.
pub mod Refinement
pub mod Results
pub mod Guards
use tirtc_client_python.Prelude.{ℕ, Bool, true, false, Option, none, some}
use tirtc_client_python.Errors.Action.{Exception, Result, ok, err, Action}
use tirtc_client_python.Lifecycle.{
  Status, closed, Coordinator, Begun, own, wait, done, raised, begin, fail, succeed, require_open,
}
use tirtc_client_python.Calls.{Held, Call}

pub record Closable (S N : Type 0) : Type 0 where
  pub coordinator : Coordinator
  pub object : Held S N

-- How a call ends that may have to wait: it returns; it found a tear-down running and goes on to
-- wait for that generation (Lifecycle.wake); or it waits for an event that has not come yet.
pub data Ended (A : Type 0) : Type 0 where
  returned : A → Ended A
  waits : ℕ → Ended A
  pending : Ended A

abbrev pub is_closed : Status → Bool
is_closed closed = true
is_closed _ = false

-- What a `close` without a result gives: the error of a child is raised once all is closed.
abbrev pub outcome_result : Option Exception → Result (Unit {0})
outcome_result none = ok tt
outcome_result (some e) = err e

abbrev pub as_returned : {A : Type 0} → Result A → Result (Ended A)
as_returned (ok a) = ok (returned a)
as_returned (err e) = err e

module _ {S N : Type 0} where
  abbrev pub opened_if :
      {A : Type 0} → Result (Unit {0}) → Call S N A → Closable S N → Result A × Closable S N
  opened_if (err e) m s = (err e, s)
  opened_if (ok u) m s = let (r, t) = m s.object in (r, record s { object = t })

  -- `with self._lock: self._close.require_open(); ...`
  abbrev pub opened : {A : Type 0} → Call S N A → Action (Closable S N) A
  opened m s = opened_if (require_open s.coordinator) m s

  -- A call that does not look at the coordinator.
  abbrev pub free : {A : Type 0} → Call S N A → Action (Closable S N) A
  free m s = let (r, t) = m s.object in (r, record s { object = t })

  -- What comes after the coordinator has been told, or was found closed.
  abbrev pub ending :
      {A : Type 0} → Coordinator → Result A × Held S N → Result (Ended A) × Closable S N
  ending c (r, t) = (as_returned r, record { coordinator = c; object = t })

  module _ {A : Type 0} (after : S → S) (last : Option Exception → Call S N A) where
    unfoldable pub settle_close :
        Coordinator → ℕ → Result (Option Exception) × Held S N → Result (Ended A) × Closable S N
    settle_close c g (err e, t) = (err e, record { coordinator = fail c g e; object = t })
    settle_close c g (ok outcome, t) =
        ending (succeed c g outcome) (last outcome (record t { self = after t.self }))

    unfoldable pub proceed :
        Coordinator
        → Begun
        → Call S N (Option Exception)
        → Held S N
        → Result (Ended A) × Closable S N
    unfolding settle_close
    proceed c (own g) body o = settle_close c g (body o)
    proceed c (wait g) body o = (ok (waits g), record { coordinator = c; object = o })
    proceed c done body o = ending c (last none o)
    proceed c (raised e) body o = (err e, record { coordinator = c; object = o })

    -- `after` is what is written once the close has succeeded, and `last` what is then returned or
    -- raised, and also where the object had been closed before.
    unfoldable pub closing : Call S N (Option Exception) → Action (Closable S N) (Ended A)
    unfolding proceed
    closing body s = let (c, begun) = begin s.coordinator false in proceed c begun body s.object
