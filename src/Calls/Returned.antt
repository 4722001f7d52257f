-- ===== src/Calls/Returned.antt =====
-- What a call that returned tells of its native calls.
use tirtc_client_python.Prelude.{
  ℕ, ◌≡◌, ◌≢◌, none, some, refl, ap, sym, ◌∙◌, Bool, true, false, arith, ◌==◌, if◌then◌else◌,
}
use tirtc_client_python.Prelude.Int.{ℤ, pos, negsuc}
use tirtc_client_python.Errors.Action.{◌>>=◌, Exception, sdk, Result, ok, err}
use tirtc_client_python.Lifecycle.{
  Status, open_, closing as closing_, close_failed, closed, require_open, require_status,
}
use tirtc_client_python.Calls.{
  Sdk, Held, Call, expect_zero, checked, failure_of, failure_named, raise_failure, run_result,
  retry_result, retry_in_use,
}
use tirtc_client_python.Calls.Closing.{Closable, opened, opened_if}
use tirtc_client_python.Util.Retry.{Run, retry_in_use_result}
use tirtc_client_python.Util.Retry.Attempts.{FromAttempt, retry_in_use_result-FromAttempt}

open_status : (status : Status) (u : Unit {0}) → require_status status ≡ ok u → status ≡ open_
unfolding require_status
open_status open_ u h = refl
open_status closing_ u h = absurd (ground (arith, h))
open_status close_failed u h = absurd (ground (arith, h))
open_status closed u h = absurd (ground (arith, h))

no_failure :
    (e : Exception) (p : Result (Unit {0})) (u : Unit {0})
    → raise_failure (failure_named e p) ≢ ok u
unfolding failure_named raise_failure
no_failure e (ok v) u h = ground (arith, h)
no_failure e (err x) u h = ground (arith, h)

no_error :
    (b : Bool) (e : Exception) (p : Result (Unit {0})) (u : Unit {0}) (n : ℕ)
    → raise_failure (if b then ok none else failure_named e p) ≡ ok u
    → (n == 0) ≡ b
    → n ≡ 0
no_error true e p u n h zero_ = ground (arith, zero_)
no_error false e p u n h zero_ = absurd (no_failure e p u h)

module _ {S N : Type 0} where
  -- What a call under the lock of an open object comes to.
  pub record Opened {A : Type 0} (m : Call S N A) (s : Closable S N) (a : A) (t : Closable S N)
      : Type 0 where
    pub was_open : s.coordinator.status ≡ open_
    pub object : m s.object ≡ (ok a, t.object)
    pub coordinator : t.coordinator ≡ s.coordinator

  pub opened-Opened :
      {A : Type 0} (m : Call S N A) (s : Closable S N) (a : A) (t : Closable S N)
      → opened m s ≡ (ok a, t)
      → Opened m s a t
  unfolding require_open
  opened-Opened {A = A} m s a t h = go (require_status s.coordinator.status) refl h
    where
      go :
          (r : Result (Unit {0}))
          → require_status s.coordinator.status ≡ r
          → opened_if {A = A} r m s ≡ (ok a, t)
          → Opened m s a t
      go (ok u) is_open k = record {
        was_open = open_status s.coordinator.status u is_open;
        object = λ i. ((k i).0, (k i).1.object);
        coordinator = sym (ap (λ p. p.1.coordinator) k);
      }
      go (err e) is_open k = absurd (ground (arith, ap (λ p. p.0) k))

module _ {S N : Type 0} (native : Sdk N) where
  pub zero_code :
      (code : ℤ) (s : Held S N) (u : Unit {0}) (t : Held S N)
      → expect_zero native code s ≡ (ok u, t)
      → (code ≡ pos 0) × (s ≡ t)
  unfolding expect_zero failure_of
  zero_code (pos n) s u t h = (
    ap pos (
        no_error (n == 0) (sdk (native.code_error (pos n))) (native.process s.world) u n
          (ap (λ p. p.0) h) refl),
    ap (λ p. p.1) h,
  )
  zero_code (negsuc n) s u t h =
      absurd (
        no_failure (sdk (native.code_error (negsuc n))) (native.process s.world) u
          (ap (λ p. p.0) h))

  pub checked-returned :
      (f : N → ℤ × N) (s : Held S N) (u : Unit {0}) (t : Held S N)
      → checked native f s ≡ (ok u, t)
      → (f s.world ≡ (pos 0, t.world)) × (t.self ≡ s.self)
  unfolding checked
  checked-returned f s u t h =
      let (zero_, same) = zero_code (f s.world).0 (record s { world = (f s.world).1 }) u t h in
      ((λ i. (zero_ i, (same i).world)), sym (ap (λ r. r.self) same))

  -- A native call with retries that returned: an attempt gave the code zero, and left the world.
  pub record Retried (f : N → ℤ × N) (s t : Held S N) : Type 0 where
    pub before : N
    pub called : f before ≡ (pos 0, t.world)
    pub self : t.self ≡ s.self

  run-Retried :
      (f : N → ℤ × N) (r : Run N ℤ) (s : Held S N) (u : Unit {0}) (t : Held S N)
      → FromAttempt native.clock (λ code. code) f r
      → (run_result native r >>= expect_zero native) s ≡ (ok u, t)
      → Retried f s t
  unfolding run_result
  run-Retried f none s u t from h = absurd (ground (arith, ap (λ p. p.0) h))
  run-Retried f (some (err e, n)) s u t from h = absurd (ground (arith, ap (λ p. p.0) h))
  run-Retried f (some (ok code, n)) s u t (m, attempt) h =
      let (zero_, same) = zero_code code (record s { world = n }) u t h in
      record {
        before = m;
        called = attempt ∙ (λ i. (zero_ i, (same i).world));
        self = sym (ap (λ r. r.self) same);
      }

  pub retry_in_use-Retried :
      (f : N → ℤ × N) (s : Held S N) (u : Unit {0}) (t : Held S N)
      → retry_in_use native f s ≡ (ok u, t)
      → Retried f s t
  unfolding retry_in_use retry_result
  retry_in_use-Retried f s u t h =
      run-Retried f (retry_in_use_result native.clock (λ code. code) f 5_000_000 s.world) s u t
        (retry_in_use_result-FromAttempt native.clock (λ code. code) f 5_000_000 s.world) h
