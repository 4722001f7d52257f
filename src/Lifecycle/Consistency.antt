-- ===== src/Lifecycle/Consistency.antt =====
-- The coordinator seen from one generation `g`, with `n` threads that wait for it and `k` that
-- tear down under it: each section keeps the two dicts, the status and these counts consistent.
use tirtc_client_python.Prelude.{
  ℕ, ◌+◌, ◌<◌, ◌≡◌, ◌⊎◌, Bool, true, false, ◌&&◌, Option, none, some, arith, ◌==◌, if◌then◌else◌,
  is_some,
}
use tirtc_client_python.Errors.Action.{Exception, Result}
use tirtc_client_python.Lifecycle.{
  Coordinator, Status, closing, Begun, own, wait, begin, wake, fail, succeed,
}

abbrev pub stored : ℕ → Option ℕ
stored n = if n == 0 then none else some n

abbrev pub is_closing : Status → Bool
is_closing closing = true
is_closing _ = false

pub record IsConsistent (c : Coordinator) (g n k : ℕ) : Type 0 where
  -- the dict of waiters counts them, and holds no zero
  pub registered : c.waiters g ≡ stored n
  -- a waiter has its outcome, or the thread that will publish it is at work
  pub served : 0 < n → (is_some (c.outcomes g) ≡ true) ⊎ ((c.status ≡ closing) × (c.generation ≡ g))
  -- an outcome is kept for somebody
  pub kept : is_some (c.outcomes g) ≡ true → 0 < n
  -- nothing is published before its time
  pub pending : c.status ≡ closing → c.generation ≡ g → is_some (c.outcomes g) ≡ false
  pub past : c.generation < g → n ≡ 0
  pub owners : k ≡ (if is_closing c.status && g == c.generation then 1 else 0)

abbrev pub joins : ℕ → Begun → ℕ
joins g (wait h) = if g == h then 1 else 0
joins g _ = 0

abbrev pub owns : ℕ → Begun → ℕ
owns g (own h) = if g == h then 1 else 0
owns g _ = 0

pub begin-IsConsistent :
    (c : Coordinator) (g n k : ℕ) (preflight : Bool)
    → IsConsistent c g n k
    → let (c', b) = begin c preflight in IsConsistent c' g (n + joins g b) (k + owns g b)
unfolding begin
begin-IsConsistent c g n k preflight h = ground arith

pub wake-IsConsistent :
    (c c' : Coordinator) (g g' n k : ℕ) (r : Result (Unit {0}))
    → IsConsistent c g (n + (if g == g' then 1 else 0)) k
    → wake c g' ≡ some (c', r)
    → IsConsistent c' g n k
unfolding wake
wake-IsConsistent c c' g g' n k r h e = ground arith

module _ (c : Coordinator) (g g' n k : ℕ) (busy : c.status ≡ closing) (current : c.generation ≡ g')
    (h : IsConsistent c g n (k + (if g == g' then 1 else 0))) where
  pub fail-IsConsistent : (e : Exception) → IsConsistent (fail c g' e) g n k
  unfolding fail
  fail-IsConsistent e = ground arith

  pub succeed-IsConsistent : (e : Option Exception) → IsConsistent (succeed c g' e) g n k
  unfolding succeed
  succeed-IsConsistent e = ground arith
