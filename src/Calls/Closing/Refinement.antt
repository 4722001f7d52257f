-- ===== src/Calls/Closing/Refinement.antt =====
-- A `close` does what an object with a single bit, closed or not, would do.
use tirtc_client_python.Prelude.{
  ℕ, ◌≡◌, ◌≢◌, refl, Bool, true, false, Option, none, some, if◌then◌else◌,
}
use tirtc_client_python.Errors.Action.{Exception, Result, ok, err}
use tirtc_client_python.Lifecycle.{
  Status, open_, closing as closing_, close_failed, closed, Coordinator, begin_at, start, begin,
  fail, succeed,
}
use tirtc_client_python.Calls.{Held, Call}
use tirtc_client_python.Calls.Closing.{
  Closable, Ended, is_closed, as_returned, settle_close, proceed, closing,
}

-- The specification: the bit, and what the object holds.
pub record Abstract (S N : Type 0) : Type 0 where
  pub closed_bit : Bool
  pub object : Held S N

module _ {S N A : Type 0} (after : S → S) (last : Option Exception → Call S N A) where
  abbrev pub abstracted : Closable S N → Abstract S N
  abstracted s = record { closed_bit = is_closed s.coordinator.status; object = s.object }

  abbrev with_bit : Bool → Result A × Held S N → Result (Ended A) × Abstract S N
  with_bit bit (r, t) = (as_returned r, record { closed_bit = bit; object = t })

  abbrev spec_report : Result (Option Exception) × Held S N → Result (Ended A) × Abstract S N
  spec_report (err e, t) = (err e, record { closed_bit = false; object = t })
  spec_report (ok outcome, t) = with_bit true (last outcome (record t { self = after t.self }))

  -- Closed: only `last` happens. Not closed: the body runs, and the bit is set where it returned.
  abbrev pub spec_close :
      Call S N (Option Exception) → Abstract S N → Result (Ended A) × Abstract S N
  spec_close body a =
      if a.closed_bit
      then with_bit a.closed_bit (last none a.object)
      else spec_report (body a.object)

  forget : Result (Ended A) × Closable S N → Result (Ended A) × Abstract S N
  forget (r, s) = (r, abstracted s)

  settle_close-spec_report :
      (c : Coordinator) (g : ℕ) (x : Result (Option Exception) × Held S N)
      → forget (settle_close after last c g x) ≡ spec_report x
  unfolding settle_close forget fail succeed
  settle_close-spec_report c g (err e, t) = refl
  settle_close-spec_report c g (ok none, t) = refl
  settle_close-spec_report c g (ok (some e), t) = refl

  at_status :
      (status : Status) (c : Coordinator) (body : Call S N (Option Exception)) (o : Held S N)
      → status ≢ closing_
      → forget (let (c', begun) = begin_at status c false in proceed after last c' begun body o) ≡ (
          if is_closed status
          then with_bit (is_closed c.status) (last none o)
          else spec_report (body o))
  unfolding begin_at start proceed forget
  at_status open_ c body o free = settle_close-spec_report _ _ (body o)
  at_status closing_ c body o free = absurd (free refl)
  at_status close_failed c body o free = settle_close-spec_report _ _ (body o)
  at_status closed c body o free = refl

  -- Where no other thread is closing the object, `close` gives the result that the specification
  -- gives and leaves what it leaves: the body runs just where the object is not closed, the object
  -- is closed just where the body returned, and a body that raised can be tried again.
  pub closing_refines :
      (body : Call S N (Option Exception)) (s : Closable S N)
      → s.coordinator.status ≢ closing_
      → ((closing after last body s).0, abstracted (closing after last body s).1)
        ≡ spec_close body (abstracted s)
  unfolding closing begin forget
  closing_refines body s free = at_status s.coordinator.status s.coordinator body s.object free
