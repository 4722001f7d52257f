-- ===== src/Lifecycle/Invariant.antt =====
-- Every interleaving of the threads keeps every generation consistent, and at most one of them
-- tears down.
use tirtc_client_python.Prelude.{
  ℕ, ◌+◌, ◌<◌, ◌≡◌, refl, sym, ◌∙◌, Bool, true, false, List, [], ◌∷◌, ◌++◌, Option, some, arith,
  ◌==◌, if◌then◌else◌, count_if, count_if-middle,
}
use tirtc_client_python.Errors.Action.{Exception, Result}
use tirtc_client_python.Lifecycle.{
  Coordinator, Begun, own, wait, done, raised, closing, new, begin, wake, fail, succeed,
}
use tirtc_client_python.Lifecycle.System.{
  Pc, idle, waiting, tearing_down, World, pc_of, called, left_by, Step, begins, wakes, fails,
  succeeds, Reach, here, next, IsInitial, all_idle, waits_for, tears_down, is_tearing_down,
}
use tirtc_client_python.Lifecycle.Consistency.{
  IsConsistent, is_closing, joins, owns, begin-IsConsistent, wake-IsConsistent, fail-IsConsistent,
  succeed-IsConsistent,
}

pub record IsSound (w : World) : Type 0 where
  pub each :
      (g : ℕ)
      → IsConsistent w.coordinator g
          (count_if (waits_for g) w.threads)
          (count_if (tears_down g) w.threads)
  pub one : count_if is_tearing_down w.threads ≡ (if is_closing w.coordinator.status then 1 else 0)

cast :
    (c : Coordinator) (g n n' k k' : ℕ)
    → n ≡ n'
    → k ≡ k'
    → IsConsistent c g n k
    → IsConsistent c g n' k'
cast c g n n' k k' p q h = ground arith

pub joins-waits_for : (g : ℕ) (b : Begun) → (if waits_for g (pc_of b) then 1 else 0) ≡ joins g b
joins-waits_for g (own h) = refl
joins-waits_for g (wait h) = refl
joins-waits_for g done = refl
joins-waits_for g (raised e) = refl

owns-tears_down : (g : ℕ) (b : Begun) → (if tears_down g (pc_of b) then 1 else 0) ≡ owns g b
owns-tears_down g (own h) = refl
owns-tears_down g (wait h) = refl
owns-tears_down g done = refl
owns-tears_down g (raised e) = refl

-- The counts around one place of the list of threads.
module _ (ls rs : List Pc) where
  abbrev pub others : (Pc → Bool) → ℕ
  others p = count_if p ls + count_if p rs

  -- From what holds with `t` in that place, and back.
  with_thread :
      (c : Coordinator) (t : Pc)
      → ((g : ℕ)
          → IsConsistent c g
              (others (waits_for g) + (if waits_for g t then 1 else 0))
              (others (tears_down g) + (if tears_down g t then 1 else 0)))
      → others is_tearing_down + (if is_tearing_down t then 1 else 0)
        ≡ (if is_closing c.status then 1 else 0)
      → IsSound (record { coordinator = c; threads = ls ++ t ∷ rs })
  with_thread c t each one = record {
    each = λ g.
        cast c g _ _ _ _ (sym (count_if-middle (waits_for g) ls t rs))
          (sym (count_if-middle (tears_down g) ls t rs)) (each g);
    one = count_if-middle is_tearing_down ls t rs ∙ one;
  }

  module _ (w : World) (t : Pc) (at : w.threads ≡ ls ++ t ∷ rs) (s : IsSound w) where
    pub before :
        (g : ℕ)
        → IsConsistent w.coordinator g
            (others (waits_for g) + (if waits_for g t then 1 else 0))
            (others (tears_down g) + (if tears_down g t then 1 else 0))
    before g =
        cast w.coordinator g _ _ _ _ (rw at (count_if-middle (waits_for g) ls t rs))
          (rw at (count_if-middle (tears_down g) ls t rs)) (s.each g)

    total :
        others is_tearing_down + (if is_tearing_down t then 1 else 0)
        ≡ (if is_closing w.coordinator.status then 1 else 0)
    total = sym (count_if-middle is_tearing_down ls t rs) ∙ rw (← at) s.one

begin-one :
    (c : Coordinator) (b : Bool) (n : ℕ)
    → n ≡ (if is_closing c.status then 1 else 0)
    → n + (if is_tearing_down (pc_of (begin c b).1) then 1 else 0)
      ≡ (if is_closing (begin c b).0.status then 1 else 0)
unfolding begin
begin-one c b n h = ground arith

called-IsSound :
    (w : World) (ls rs : List Pc) (b : Bool)
    → w.threads ≡ ls ++ idle ∷ rs
    → IsSound w
    → IsSound (called w ls rs b)
called-IsSound w ls rs b at s =
    with_thread ls rs _ _
      (λ g.
        rw
          (joins-waits_for g (begin w.coordinator b).1, owns-tears_down g (begin w.coordinator b).1)
          (begin-IsConsistent w.coordinator g _ _ b (
            cast w.coordinator g _ _ _ _ (omega arith) (omega arith) (before ls rs w idle at s g))))
      (begin-one w.coordinator b _ (omega (arith, total ls rs w idle at s)))

pub wake-status :
    (c c' : Coordinator) (g : ℕ) (r : Result (Unit {0}))
    → wake c g ≡ some (c', r)
    → c'.status ≡ c.status
unfolding wake
wake-status c c' g r e = ground arith

-- The thread that tears down finds its own generation running.
pub owner_current :
    (c : Coordinator) (g n k : ℕ)
    → IsConsistent c g n k
    → 0 < k
    → (c.status ≡ closing) × (c.generation ≡ g)
owner_current c g n k h p = ground arith

fail-status : (c : Coordinator) (g : ℕ) (e : Exception) → is_closing (fail c g e).status ≡ false
unfolding fail
fail-status c g e = refl

succeed-status :
    (c : Coordinator) (g : ℕ) (e : Option Exception) → is_closing (succeed c g e).status ≡ false
unfolding succeed
succeed-status c g e = refl

-- The tear-down of one thread ends, and its place is idle again.
ended-IsSound :
    (w : World) (c' : Coordinator) (ls rs : List Pc) (g' : ℕ)
    → w.threads ≡ ls ++ tearing_down g' ∷ rs
    → IsSound w
    → is_closing c'.status ≡ false
    → ((g n k : ℕ)
        → w.coordinator.status ≡ closing
        → w.coordinator.generation ≡ g'
        → IsConsistent w.coordinator g n (k + (if g == g' then 1 else 0))
        → IsConsistent c' g n k)
    → IsSound (left_by c' ls rs)
ended-IsSound w c' ls rs g' at s over keep =
    let here' = before ls rs w (tearing_down g') at s in
    let (busy, current) = owner_current w.coordinator g' _ _ (here' g') (ground arith) in
    with_thread ls rs c' idle
      (λ g. cast c' g _ _ _ _ (omega arith) (omega arith) (
        keep g (others ls rs (waits_for g)) (others ls rs (tears_down g)) busy current
          (cast w.coordinator g _ _ _ _ (omega arith) (omega arith) (here' g))))
      (ground (arith, total ls rs w (tearing_down g') at s))

-- Every step of any thread keeps the whole sound.
pub Step-IsSound : {w w' : World} → Step w w' → IsSound w → IsSound w'
Step-IsSound {w} (begins ls rs b at) s = called-IsSound w ls rs b at s
Step-IsSound {w} (wakes ls rs g' c r at e) s =
    with_thread ls rs c idle
      (λ g.
        cast c g _ _ _ _ (omega arith) (omega arith)
          (wake-IsConsistent w.coordinator c g g' _ _ r (before ls rs w (waiting g') at s g) e))
      (rw (wake-status w.coordinator c g' r e) (total ls rs w (waiting g') at s))
Step-IsSound {w} (fails ls rs g' e at) s =
    ended-IsSound w _ ls rs g' at s (fail-status w.coordinator g' e)
      (λ g n k busy current h. fail-IsConsistent w.coordinator g g' n k busy current h e)
Step-IsSound {w} (succeeds ls rs g' e at) s =
    ended-IsSound w _ ls rs g' at s (succeed-status w.coordinator g' e)
      (λ g n k busy current h. succeed-IsConsistent w.coordinator g g' n k busy current h e)

new-IsConsistent : (g : ℕ) → IsConsistent new g 0 0
unfolding new
new-IsConsistent g = ground arith

none_waits : (g : ℕ) (ts : List Pc) → all_idle ts ≡ true → count_if (waits_for g) ts ≡ 0
none_waits g [] h = refl
none_waits g (t ∷ ts) h = ground (arith, none_waits g ts)

none_tears : (g : ℕ) (ts : List Pc) → all_idle ts ≡ true → count_if (tears_down g) ts ≡ 0
none_tears g [] h = refl
none_tears g (t ∷ ts) h = ground (arith, none_tears g ts)

none_tearing : (ts : List Pc) → all_idle ts ≡ true → count_if is_tearing_down ts ≡ 0
none_tearing [] h = refl
none_tearing (t ∷ ts) h = ground (arith, none_tearing ts)

IsInitial-IsSound : (w : World) → IsInitial w → IsSound w
unfolding new
IsInitial-IsSound w (fresh, quiet) = record {
  each = λ g. rw fresh (
      cast new g _ _ _ _ (sym (none_waits g w.threads quiet)) (sym (none_tears g w.threads quiet))
        (new-IsConsistent g));
  one = ground (arith, none_tearing w.threads quiet);
}

pub Reach-IsSound : {w w' : World} → IsInitial w → Reach w w' → IsSound w'
Reach-IsSound {w} init here = IsInitial-IsSound w init
Reach-IsSound init (next r st) = Step-IsSound st (Reach-IsSound init r)
