-- ===== src/Calls/Closing/Guards.antt =====
-- The two guards that stand before most calls: `_check_process`, and the refusal of a callback that
-- would block itself.
use tirtc_client_python.Prelude.{◌≡◌, ◌≢◌, subst, refl, ap, sym, ◌∙◌, Bool, true, false, arith}
use tirtc_client_python.Errors.Action.{Exception, Result, ok, err, Action, raise_if, lift, ◌>>◌}
use tirtc_client_python.Lifecycle.{closed}
use tirtc_client_python.Calls.{Sdk, require_process}
use tirtc_client_python.Calls.Closing.{Closable, free}

module _ {S N A : Type 0} (native : Sdk N) where
  abbrev pub guarded : Bool → Exception → Action (Closable S N) A → Action (Closable S N) A
  guarded blocking e k = free (require_process native) >> raise_if blocking e >> k

  -- What the guards come to.
  abbrev pub passed :
      Result (Unit {0}) → Bool → Exception → Action (Closable S N) A → Action (Closable S N) A
  passed (err x) blocking e k s = (err x, s)
  passed (ok u) true e k s = (err e, s)
  passed (ok u) false e k s = k s

  pub guarded-passed :
      (blocking : Bool) (e : Exception) (k : Action (Closable S N) A) (s : Closable S N)
      → guarded blocking e k s ≡ passed (native.process s.object.world) blocking e k s
  unfolding require_process
  guarded-passed blocking e k s = go (native.process s.object.world) blocking
    where
      go : (r : Result (Unit {0})) (b : Bool) → (lift r >> raise_if b e >> k) s ≡ passed r b e k s
      go (ok u) true = refl
      go (ok u) false = refl
      go (err x) b = refl

  passed-ok :
      (r : Result (Unit {0})) (blocking : Bool) (e : Exception) (k : Action (Closable S N) A)
      (s : Closable S N) (a : A) (t : Closable S N)
      → passed r blocking e k s ≡ (ok a, t)
      → k s ≡ (ok a, t)
  passed-ok (ok u) true e k s a t h = absurd (ground (arith, ap (λ p. p.0) h))
  passed-ok (ok u) false e k s a t h = h
  passed-ok (err x) blocking e k s a t h = absurd (ground (arith, ap (λ p. p.0) h))

  -- A call that returned got past its guards.
  pub guarded-ok :
      (blocking : Bool) (e : Exception) (k : Action (Closable S N) A) (s : Closable S N) (a : A)
      (t : Closable S N)
      → guarded blocking e k s ≡ (ok a, t)
      → k s ≡ (ok a, t)
  guarded-ok blocking e k s a t h =
      passed-ok (native.process s.object.world) blocking e k s a t
        (sym (guarded-passed blocking e k s) ∙ h)

  -- A call that is not refused.
  pub guarded_open :
      (e : Exception) (k : Action (Closable S N) A) (s : Closable S N)
      → native.process s.object.world ≡ ok tt
      → guarded false e k s ≡ k s
  guarded_open e k s current = guarded-passed false e k s ∙ ap (λ r. passed r false e k s) current

  passed-same :
      (r : Result (Unit {0})) (blocking : Bool) (e : Exception) (k k' : Action (Closable S N) A)
      (s : Closable S N)
      → k s ≡ k' s
      → passed r blocking e k s ≡ passed r blocking e k' s
  passed-same (ok u) true e k k' s h = refl
  passed-same (ok u) false e k k' s h = h
  passed-same (err x) blocking e k k' s h = refl

  -- Only what comes after the guards matters, and only here.
  pub guarded-same :
      (blocking : Bool) (e : Exception) (k k' : Action (Closable S N) A) (s : Closable S N)
      → k s ≡ k' s
      → guarded blocking e k s ≡ guarded blocking e k' s
  guarded-same blocking e k k' s h =
      guarded-passed blocking e k s
      ∙ passed-same (native.process s.object.world) blocking e k k' s h
      ∙ sym (guarded-passed blocking e k' s)

  passed-Closed :
      (P : Closable S N → Type 0) (r : Result (Unit {0})) (blocking : Bool) (e : Exception)
      (k : Action (Closable S N) A) (s : Closable S N)
      → s.coordinator.status ≢ closed
      → ((k s).1.coordinator.status ≡ closed → P (k s).1)
      → (passed r blocking e k s).1.coordinator.status ≡ closed
      → P (passed r blocking e k s).1
  passed-Closed P (ok u) true e k s live h now = absurd (live now)
  passed-Closed P (ok u) false e k s live h now = h now
  passed-Closed P (err x) blocking e k s live h now = absurd (live now)

  -- A refused call does not close the object.
  pub guarded-Closed :
      (P : Closable S N → Type 0) (blocking : Bool) (e : Exception) (k : Action (Closable S N) A)
      (s : Closable S N)
      → s.coordinator.status ≢ closed
      → ((k s).1.coordinator.status ≡ closed → P (k s).1)
      → (guarded blocking e k s).1.coordinator.status ≡ closed
      → P (guarded blocking e k s).1
  guarded-Closed P blocking e k s live h =
      subst (λ (x : Result A × Closable S N). x.1.coordinator.status ≡ closed → P x.1)
        (sym (guarded-passed blocking e k s))
        (passed-Closed P (native.process s.object.world) blocking e k s live h)
