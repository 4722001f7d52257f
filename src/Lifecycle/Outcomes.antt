-- ===== src/Lifecycle/Outcomes.antt =====
-- The outcome that ends a generation is the one that every thread waiting for it gets.
use tirtc_client_python.Prelude.{
  ℕ, ◌+◌, ◌≤◌, ◌<◌, ◌≡◌, ◌≢◌, ◌⊎◌, refl, sym, ap, ◌∙◌, Bool, List, ◌∷◌, ◌++◌, Option, some, arith,
  ◌==◌, if◌then◌else◌, count_if, count_if-middle,
}
use tirtc_client_python.Errors.Action.{Exception, Result}
use tirtc_client_python.Lifecycle.{Coordinator, closing, begin, wake, fail, succeed}
use tirtc_client_python.Lifecycle.System.{
  Pc, idle, waiting, tearing_down, World, left_by, Step, begins, wakes, fails, succeeds, Reach,
  here, next, IsInitial, waits_for,
}
use tirtc_client_python.Lifecycle.Consistency.{IsConsistent, joins}
use tirtc_client_python.Lifecycle.Invariant.{
  IsSound, Step-IsSound, Reach-IsSound, joins-waits_for, others, before, owner_current,
}
use tirtc_client_python.Lifecycle.Safety.{answer, delivered, wake-delivered, waiter_counted}

-- Generation `g` is over with outcome `o`, as far as any of its `n` waiters can tell.
record IsSettled (c : Coordinator) (g : ℕ) (o : Option Exception) (n : ℕ) : Type 0 where
  published : (c.outcomes g ≡ some o) ⊎ (n ≡ 0)
  over : c.status ≡ closing → c.generation ≢ g
  old : g ≤ c.generation

module _ (c : Coordinator) (g : ℕ) (o : Option Exception) (n k : ℕ) where
  begin-IsSettled :
      (b : Bool)
      → IsConsistent c g n k
      → IsSettled c g o n
      → IsSettled (begin c b).0 g o (n + joins g (begin c b).1)
  unfolding begin
  begin-IsSettled b h s = ground arith

  wake-IsSettled :
      (c' : Coordinator) (g' : ℕ) (r : Result (Unit {0}))
      → IsConsistent c g (n + (if g == g' then 1 else 0)) k
      → IsSettled c g o (n + (if g == g' then 1 else 0))
      → wake c g' ≡ some (c', r)
      → IsSettled c' g o n
  unfolding wake
  wake-IsSettled c' g' r h s e = ground arith

  fail-IsSettled :
      (g' : ℕ) (e : Exception)
      → c.status ≡ closing
      → c.generation ≡ g'
      → IsSettled c g o n
      → IsSettled (fail c g' e) g o n
  unfolding fail
  fail-IsSettled g' e busy current s = ground arith

  succeed-IsSettled :
      (g' : ℕ) (e : Option Exception)
      → c.status ≡ closing
      → c.generation ≡ g'
      → IsSettled c g o n
      → IsSettled (succeed c g' e) g o n
  unfolding succeed
  succeed-IsSettled g' e busy current s = ground arith

  -- The moment it is published.
  fail-settles :
      (e : Exception)
      → o ≡ some e
      → c.status ≡ closing
      → c.generation ≡ g
      → IsConsistent c g n k
      → IsSettled (fail c g e) g o n
  unfolding fail
  fail-settles e p busy current h = ground arith

  succeed-settles :
      c.status ≡ closing → c.generation ≡ g → IsConsistent c g n k → IsSettled (succeed c g o) g o n
  unfolding succeed
  succeed-settles busy current h = ground arith

cast :
    (c : Coordinator) (g n n' : ℕ) (o : Option Exception)
    → n ≡ n'
    → IsSettled c g o n
    → IsSettled c g o n'
cast c g n n' o p h = ground arith

abbrev Settles : ℕ → Option Exception → World → Type 0
Settles g o w = IsSettled w.coordinator g o (count_if (waits_for g) w.threads)

module _ (w : World) (ls rs : List Pc) (g : ℕ) (o : Option Exception) (s : IsSound w) where
  -- The thread in the middle, and the waiters among the others.
  around :
      (t : Pc)
      → w.threads ≡ ls ++ t ∷ rs
      → Settles g o w
      → IsSettled w.coordinator g o (others ls rs (waits_for g) + (if waits_for g t then 1 else 0))
  around t at h =
      cast w.coordinator g _ _ o
        (ap (count_if (waits_for g)) at ∙ count_if-middle (waits_for g) ls t rs) h

  joined :
      (c : Coordinator) (t : Pc)
      → IsSettled c g o (others ls rs (waits_for g) + (if waits_for g t then 1 else 0))
      → Settles g o (record { coordinator = c; threads = ls ++ t ∷ rs })
  joined c t h = cast c g _ _ o (sym (count_if-middle (waits_for g) ls t rs)) h

  -- A thread that tears down is not one of `g`, and the others keep their place.
  ended :
      (c : Coordinator) (g' : ℕ)
      → w.threads ≡ ls ++ tearing_down g' ∷ rs
      → ((n : ℕ)
          → w.coordinator.status ≡ closing
          → w.coordinator.generation ≡ g'
          → IsSettled w.coordinator g o n
          → IsSettled c g o n)
      → Settles g o w
      → Settles g o (left_by c ls rs)
  ended c g' at keep h =
      let own = before ls rs w (tearing_down g') at s g' in
      let (busy, current) = owner_current w.coordinator g' _ _ own (ground arith) in
      joined c idle (keep _ busy current (around (tearing_down g') at h))

Step-Settles :
    {w w' : World} (g : ℕ) (o : Option Exception)
    → Step w w'
    → IsSound w
    → Settles g o w
    → Settles g o w'
Step-Settles {w} g o (begins ls rs b at) s h = joined w ls rs g o s _ _ (
    rw (joins-waits_for g (begin w.coordinator b).1) (
      cast (begin w.coordinator b).0 g _ _ o (omega arith) (
        begin-IsSettled w.coordinator g o _ _ b (before ls rs w idle at s g)
          (around w ls rs g o s idle at h))))
Step-Settles {w} g o (wakes ls rs g' c r at e) s h = joined w ls rs g o s c idle (
    cast c g _ _ o (omega arith) (
      wake-IsSettled w.coordinator g o (others ls rs (waits_for g)) _ c g' r
        (before ls rs w (waiting g') at s g) (around w ls rs g o s (waiting g') at h) e))
Step-Settles {w} g o (fails ls rs g' e at) s h =
    ended w ls rs g o s _ g' at
      (λ n busy current k. fail-IsSettled w.coordinator g o n 0 g' e busy current k) h
Step-Settles {w} g o (succeeds ls rs g' e at) s h =
    ended w ls rs g o s _ g' at
      (λ n busy current k. succeed-IsSettled w.coordinator g o n 0 g' e busy current k) h

Reach-Settles :
    {w w' : World} (g : ℕ) (o : Option Exception)
    → IsSound w
    → Settles g o w
    → Reach w w'
    → IsSound w' × Settles g o w'
Reach-Settles g o s h here = (s, h)
Reach-Settles g o s h (next r st) =
    let (s', h') = Reach-Settles g o s h r in (Step-IsSound st s', Step-Settles g o st s' h')

settled_answer :
    (c : Coordinator) (g n k : ℕ) (o : Option Exception)
    → IsConsistent c g n k
    → IsSettled c g o n
    → 0 < n
    → answer (wake c g) ≡ some (delivered o)
settled_answer c g n k o h s p = wake-delivered c g n k o h p (ground arith)

settled_waiter :
    (w : World) (ls rs : List Pc) (g : ℕ) (o : Option Exception)
    → IsSound w
    → Settles g o w
    → w.threads ≡ ls ++ waiting g ∷ rs
    → answer (wake w.coordinator g) ≡ some (delivered o)
settled_waiter w ls rs g o s h at =
    settled_answer w.coordinator g _ _ o (s.each g) h (waiter_counted w.threads ls rs g at)

-- How a tear-down ends.
pub data Report : Type 0 where
  failed : Exception → Report
  succeeded : Option Exception → Report

abbrev pub reports : Coordinator → ℕ → Report → Coordinator
reports c g (failed e) = fail c g e
reports c g (succeeded o) = succeed c g o

abbrev pub outcome : Report → Option Exception
outcome (failed e) = some e
outcome (succeeded o) = o

reports-Settles :
    (w : World) (ls rs : List Pc) (g : ℕ) (report : Report)
    → IsSound w
    → w.threads ≡ ls ++ tearing_down g ∷ rs
    → (w.coordinator.status ≡ closing) × (w.coordinator.generation ≡ g)
    → let v = left_by (reports w.coordinator g report) ls rs in
      IsSound v × Settles g (outcome report) v
reports-Settles w ls rs g (failed e) s at (busy, current) = (
  Step-IsSound (fails ls rs g e at) s,
  joined w ls rs g (some e) s _ idle (
      fail-settles w.coordinator g (some e) _ _ e refl busy current
        (before ls rs w (tearing_down g) at s g)),
)
reports-Settles w ls rs g (succeeded o) s at (busy, current) = (
  Step-IsSound (succeeds ls rs g o at) s,
  joined w ls rs g o s _ idle
      (succeed-settles w.coordinator g o _ _ busy current (before ls rs w (tearing_down g) at s g)),
)

-- When the thread that tears down under `g` reports with `fail` or `succeed`, in any world reached
-- from an open object, then whatever the threads do afterwards, each thread still waiting for `g`
-- leaves with exactly the reported outcome: it raises the reported error, or returns if
-- `succeed` reported none.
pub outcome_reaches_waiters :
    (init w w' : World) (ls rs ls' rs' : List Pc) (g : ℕ) (report : Report)
    → IsInitial init
    → Reach init w
    → w.threads ≡ ls ++ tearing_down g ∷ rs
    → Reach (left_by (reports w.coordinator g report) ls rs) w'
    → w'.threads ≡ ls' ++ waiting g ∷ rs'
    → answer (wake w'.coordinator g) ≡ some (delivered (outcome report))
outcome_reaches_waiters init w w' ls rs ls' rs' g report initial r at later at' =
    let s = Reach-IsSound initial r in
    let current =
      owner_current w.coordinator g _ _ (before ls rs w (tearing_down g) at s g) (ground arith) in
    let (sound, settled) = reports-Settles w ls rs g report s at current in
    let (sound', settled') = Reach-Settles g (outcome report) sound settled later in
    settled_waiter w' ls' rs' g (outcome report) sound' settled' at'
