-- ===== src/Calls/Closing/Results.antt =====
-- What a `close` that returned has done, and what it does the next time.
use tirtc_client_python.Prelude.{ℕ, ◌≡◌, ◌≢◌, refl, ap, sym, ◌∙◌, false, Option, none, arith}
use tirtc_client_python.Errors.Action.{Exception, Result, ok, err}
use tirtc_client_python.Lifecycle.{
  fail, Status, open_, closing as closing_, close_failed, closed, Coordinator, begin, begin_at,
  start, succeed,
}
use tirtc_client_python.Calls.{Held, Call}
use tirtc_client_python.Calls.Closing.{
  Closable, Ended, returned, ending, settle_close, proceed, closing,
}

module _ {S N A : Type 0} (after : S → S) (last : Option Exception → Call S N A) where
  -- How a call of `closing` that returned `a` got it.
  pub record Returned (a : A) (t : Closable S N) : Type 0 where
    pub outcome : Option Exception
    pub before : Held S N
    pub last_call : last outcome before ≡ (ok a, t.object)
    pub is_closed : t.coordinator.status ≡ closed

  abbrev value_of : A → Result (Ended A) × Closable S N → A
  value_of a (ok (returned b), t) = b
  value_of a _ = a

  ending_split :
      (c : Coordinator) (x : Result A × Held S N) (a : A) (t : Closable S N)
      → ending c x ≡ (ok (returned a), t)
      → (x ≡ (ok a, t.object)) × (c ≡ t.coordinator)
  ending_split c (ok b, o) a t h =
      ((λ i. (ok (value_of a (h i)), (h i).1.object)), ap (λ p. p.1.coordinator) h)
  ending_split c (err e, o) a t h = absurd (ground (arith, ap (λ p. p.0) h))

  ending-Returned :
      (c : Coordinator) (outcome : Option Exception) (o : Held S N) (a : A) (t : Closable S N)
      → c.status ≡ closed
      → ending c (last outcome o) ≡ (ok (returned a), t)
      → Returned a t
  ending-Returned c outcome o a t is_closed h =
      let (result, same) = ending_split c (last outcome o) a t h in
      record {
        outcome = outcome;
        before = o;
        last_call = result;
        is_closed = sym (ap (λ d. d.status) same) ∙ is_closed;
      }

  settle_close-Returned :
      (c : Coordinator) (g : ℕ) (x : Result (Option Exception) × Held S N) (a : A)
      (t : Closable S N)
      → settle_close after last c g x ≡ (ok (returned a), t)
      → Returned a t
  unfolding settle_close succeed
  settle_close-Returned c g (err e, o) a t h = absurd (ground (arith, ap (λ p. p.0) h))
  settle_close-Returned c g (ok outcome, o) a t h =
      ending-Returned (succeed c g outcome) outcome (record o { self = after o.self }) a t refl h

  at_status-Returned :
      (status : Status) (c : Coordinator) (body : Call S N (Option Exception)) (o : Held S N)
      (a : A) (t : Closable S N)
      → c.status ≡ status
      → (let (c', b) = begin_at status c false in proceed after last c' b body o)
        ≡ (ok (returned a), t)
      → Returned a t
  unfolding begin_at start proceed
  at_status-Returned open_ c body o a t same h = settle_close-Returned _ _ (body o) a t h
  at_status-Returned closing_ c body o a t same h = absurd (ground (arith, ap (λ p. p.0) h))
  at_status-Returned close_failed c body o a t same h = settle_close-Returned _ _ (body o) a t h
  at_status-Returned closed c body o a t same h = ending-Returned c none o a t same h

  -- A `close` that returned has closed the object, and what it returned came from its last call.
  pub closing-Returned :
      (body : Call S N (Option Exception)) (s : Closable S N) (a : A) (t : Closable S N)
      → closing after last body s ≡ (ok (returned a), t)
      → Returned a t
  unfolding closing begin
  closing-Returned body s a t h =
      at_status-Returned s.coordinator.status s.coordinator body s.object a t refl h

  at_closed :
      (status : Status) (c : Coordinator) (body : Call S N (Option Exception)) (o : Held S N)
      → status ≡ closed
      → (let (c', b) = begin_at status c false in proceed after last c' b body o)
        ≡ ending c (last none o)
  unfolding begin_at start proceed
  at_closed open_ c body o h = absurd (ground (arith, h))
  at_closed closing_ c body o h = absurd (ground (arith, h))
  at_closed close_failed c body o h = absurd (ground (arith, h))
  at_closed closed c body o h = refl

  -- A `close` of a closed object only makes the last call.
  pub closing_again :
      (body : Call S N (Option Exception)) (s : Closable S N)
      → s.coordinator.status ≡ closed
      → closing after last body s ≡ ending s.coordinator (last none s.object)
  unfolding closing begin
  closing_again body s h = at_closed s.coordinator.status s.coordinator body s.object h

  -- Where the last call gives what it gave again, and changes nothing, so does the whole `close`.
  pub closing_stable :
      (body : Call S N (Option Exception)) (s : Closable S N) (a : A) (t : Closable S N)
      → ((outcome : Option Exception) (o u : Held S N)
          → last outcome o ≡ (ok a, u)
          → last none u ≡ (ok a, u))
      → closing after last body s ≡ (ok (returned a), t)
      → closing after last body t ≡ (ok (returned a), t)
  closing_stable body s a t stable h =
      let r = closing-Returned body s a t h in
      closing_again body t r.is_closed
      ∙ ap (ending t.coordinator) (stable r.outcome r.before t.object r.last_call)

  at_status-same :
      (status : Status) (c : Coordinator) (body body' : Call S N (Option Exception)) (o : Held S N)
      → body o ≡ body' o
      → (let (c', b) = begin_at status c false in proceed after last c' b body o)
        ≡ (let (c', b) = begin_at status c false in proceed after last c' b body' o)
  unfolding begin_at start proceed
  at_status-same open_ c body body' o h = ap (settle_close after last _ _) h
  at_status-same closing_ c body body' o h = refl
  at_status-same close_failed c body body' o h = ap (settle_close after last _ _) h
  at_status-same closed c body body' o h = refl

  -- Only what the body does with this object matters.
  pub closing-same :
      (body body' : Call S N (Option Exception)) (s : Closable S N)
      → body s.object ≡ body' s.object
      → closing after last body s ≡ closing after last body' s
  unfolding closing begin
  closing-same body body' s h =
      at_status-same s.coordinator.status s.coordinator body body' s.object h

  module _ (P : Held S N → Type 0)
      (kept : (o : Option Exception) (t : Held S N)
        → P t
        → P (last o (record t { self = after t.self })).1) where
    settle_close-Closed :
        (c : Coordinator) (g : ℕ) (x : Result (Option Exception) × Held S N)
        → ((o : Option Exception) → x.0 ≡ ok o → P x.1)
        → (settle_close after last c g x).1.coordinator.status ≡ closed
        → P (settle_close after last c g x).1.object
    unfolding settle_close fail
    settle_close-Closed c g (err e, t) h now = absurd (ground (arith, now))
    settle_close-Closed c g (ok o, t) h now = kept o t (h o refl)

    at_status-Closed :
        (status : Status) (c : Coordinator) (body : Call S N (Option Exception)) (o : Held S N)
        → c.status ≡ status
        → status ≢ closed
        → ((e : Option Exception) → (body o).0 ≡ ok e → P (body o).1)
        → (let (c', b) = begin_at status c false in
            proceed after last c' b body o).1.coordinator.status
          ≡ closed
        → P (let (c', b) = begin_at status c false in proceed after last c' b body o).1.object
    unfolding begin_at start proceed
    at_status-Closed open_ c body o same live h now = settle_close-Closed _ _ (body o) h now
    at_status-Closed closing_ c body o same live h now = absurd (ground (arith, same, now))
    at_status-Closed close_failed c body o same live h now = settle_close-Closed _ _ (body o) h now
    at_status-Closed closed c body o same live h now = absurd (live refl)

    -- Where a `close` has closed the object, what the body gives when it returns holds.
    pub closing-Closed :
        (body : Call S N (Option Exception)) (s : Closable S N)
        → s.coordinator.status ≢ closed
        → ((e : Option Exception) → (body s.object).0 ≡ ok e → P (body s.object).1)
        → (closing after last body s).1.coordinator.status ≡ closed
        → P (closing after last body s).1.object
    unfolding closing begin
    closing-Closed body s live h now =
        at_status-Closed s.coordinator.status s.coordinator body s.object refl live h now
