-- ===== src/Lifecycle/Safety.antt =====
-- What every history of the threads guarantees.
use tirtc_client_python.Prelude.{
  ℕ, ◌≤◌, ◌<◌, ◌≡◌, ◌⊎◌, inl, inr, Bool, List, ◌∷◌, ◌++◌, Option, none, some, arith, count_if,
  count_if-middle, Option-cases, ◌∙◌, refl, if◌then◌else◌,
}
use tirtc_client_python.Errors.Action.{Exception, sdk, builtin, foreign, Result, ok, err}
use tirtc_client_python.Lifecycle.{Coordinator, closed, done, begin, wake, copy_error}
use tirtc_client_python.Lifecycle.System.{
  Pc, waiting, tearing_down, World, Step, begins, wakes, fails, succeeds, Reach, here, next,
  IsInitial, waits_for, tears_down, is_tearing_down,
}
use tirtc_client_python.Lifecycle.Consistency.{IsConsistent, is_closing}
use tirtc_client_python.Lifecycle.Invariant.{IsSound, wake-status, Step-IsSound, Reach-IsSound}

-- In every world that the threads can reach from an open object, at most one thread is between its
-- `begin` and its `fail` or `succeed`, and there is one exactly while the status is closing.
pub one_tears_down :
    (w w' : World)
    → IsInitial w
    → Reach w w'
    → (count_if is_tearing_down w'.threads ≤ 1)
      × (count_if is_tearing_down w'.threads ≡ (if is_closing w'.coordinator.status then 1 else 0))
one_tears_down w w' init r = let s = Reach-IsSound init r in ground (arith, s.one)

pub waiter_counted :
    (ts ls rs : List Pc) (g : ℕ) → ts ≡ ls ++ waiting g ∷ rs → 0 < count_if (waits_for g) ts
waiter_counted ts ls rs g at = ground (arith, count_if-middle (waits_for g) ls (waiting g) rs)

-- What the wait returns or raises, if it is over.
abbrev pub answer : Option (Coordinator × Result (Unit {0})) → Option (Result (Unit {0}))
answer none = none
answer (some (c, r)) = some r

abbrev pub delivered : Option Exception → Result (Unit {0})
delivered none = ok tt
delivered (some e) = err e

pub copy_error_lem : (e : Exception) → copy_error e ≡ e
unfolding copy_error
copy_error_lem (sdk e) = refl
copy_error_lem (builtin b m) = refl
copy_error_lem (foreign m) = refl

pub wake-delivered :
    (c : Coordinator) (g n k : ℕ) (o : Option Exception)
    → IsConsistent c g n k
    → 0 < n
    → c.outcomes g ≡ some o
    → answer (wake c g) ≡ some (delivered o)
unfolding wake
wake-delivered c g n k none h p q = ground arith
wake-delivered c g n k (some e) h p q = ground (arith, copy_error_lem e)

served_or_owned :
    (c : Coordinator) (g n k : ℕ)
    → IsConsistent c g n k
    → 0 < n
    → ((o : Option Exception) × (answer (wake c g) ≡ some (delivered o))) ⊎ (0 < k)
served_or_owned c g n k h p = elim (Option-cases (c.outcomes g)) [
  | inl e ↦ inr (ground arith)
  | inr (o, e) ↦ inl (o, wake-delivered c g n k o h p e)
]

-- In every world that the threads can reach from an open object, a thread that waits for `g` is
-- never stuck: its wait is over, with an outcome that was published for it (and never a KeyError),
-- or some thread is still tearing down under `g`.
pub no_stuck_waiter :
    (w w' : World) (ls rs : List Pc) (g : ℕ)
    → IsInitial w
    → Reach w w'
    → w'.threads ≡ ls ++ waiting g ∷ rs
    → ((o : Option Exception) × (answer (wake w'.coordinator g) ≡ some (delivered o)))
      ⊎ (0 < count_if (tears_down g) w'.threads)
no_stuck_waiter w w' ls rs g init r at =
    served_or_owned w'.coordinator g _ _ ((Reach-IsSound init r).each g)
      (waiter_counted w'.threads ls rs g at)

-- In every world that the threads can reach from an open object, the two dicts hold no entry for a
-- generation that no thread waits for.
pub no_leak :
    (w w' : World) (g : ℕ)
    → IsInitial w
    → Reach w w'
    → count_if (waits_for g) w'.threads ≡ 0
    → (w'.coordinator.waiters g ≡ none) × (w'.coordinator.outcomes g ≡ none)
no_leak w w' g init r empty = let h = (Reach-IsSound init r).each g in ground (arith, h)

-- The tear-down of a thread cannot meet a closed object.
teardown_not_closed :
    (w : World) (ls rs : List Pc) (g : ℕ)
    → IsSound w
    → w.threads ≡ ls ++ tearing_down g ∷ rs
    → w.coordinator.status ≡ closed
    → ⊥
teardown_not_closed w ls rs g s at h =
    ground (arith, s.one, count_if-middle is_tearing_down ls (tearing_down g) rs)

begin-closed : (c : Coordinator) (b : Bool) → c.status ≡ closed → begin c b ≡ (c, done)
unfolding begin
begin-closed c b h = ground arith

Step-closed :
    {w w' : World}
    → Step w w'
    → IsSound w
    → w.coordinator.status ≡ closed
    → w'.coordinator.status ≡ closed
Step-closed {w} (begins ls rs b at) s h = rw (begin-closed w.coordinator b h) h
Step-closed {w} (wakes ls rs g c r at e) s h = wake-status w.coordinator c g r e ∙ h
Step-closed {w} (fails ls rs g e at) s h = absurd (teardown_not_closed w ls rs g s at h)
Step-closed {w} (succeeds ls rs g e at) s h = absurd (teardown_not_closed w ls rs g s at h)

Reach-closed :
    {w w' : World}
    → IsSound w
    → Reach w w'
    → w.coordinator.status ≡ closed
    → IsSound w' × (w'.coordinator.status ≡ closed)
Reach-closed s here h = (s, h)
Reach-closed s (next r st) h =
    let (s', h') = Reach-closed s r h in (Step-IsSound st s', Step-closed st s' h')

-- Once an object that was open has been closed, it stays closed whatever the threads do, and every
-- later `begin` returns None and changes nothing.
pub closed_forever :
    (w v w' : World) (preflight : Bool)
    → IsInitial w
    → Reach w v
    → v.coordinator.status ≡ closed
    → Reach v w'
    → (w'.coordinator.status ≡ closed) × (begin w'.coordinator preflight ≡ (w'.coordinator, done))
closed_forever w v w' preflight init r h r' =
    let (s, h') = Reach-closed (Reach-IsSound init r) r' h in
    (h', begin-closed w'.coordinator preflight h')
