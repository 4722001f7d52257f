-- ===== src/Errors/Inversion.antt =====
-- What a call that returned tells of the calls in it.
use tirtc_client_python.Prelude.{◌≡◌, refl, ap, Bool, true, false, arith}
use tirtc_client_python.Errors.Action.{Exception, Result, ok, err, Action, raise_if, lift, ◌>>=◌}
use tirtc_client_python.Errors.Fallible.{value_or}

module _ {S : Type 0} where
  abbrev value_in : {A : Type 0} → A → Result A × S → A
  value_in a (r, s) = value_or a r

  pub bind-returned :
      {A B : Type 0} (m : Action S A) (f : A → Action S B) (s : S) (b : B) (t : S)
      → (m >>= f) s ≡ (ok b, t)
      → (a : A) × (u : S) × (m s ≡ (ok a, u)) × (f a u ≡ (ok b, t))
  bind-returned {A = A} {B = B} m f s b t h = go (m s) h
    where
      go :
          (x : Result A × S)
          → ((λ _. x) >>= f) s ≡ (ok b, t)
          → (a : A) × (u : S) × (x ≡ (ok a, u)) × (f a u ≡ (ok b, t))
      go (ok a, u) k = (a, u, refl, k)
      go (err e, u) k = absurd (ground (arith, ap (λ p. p.0) k))

  pub raise_if-returned :
      (test : Bool) (e : Exception) (s : S) (u : Unit {0}) (t : S)
      → raise_if test e s ≡ (ok u, t)
      → (test ≡ false) × (s ≡ t)
  raise_if-returned true e s u t h = absurd (ground (arith, ap (λ p. p.0) h))
  raise_if-returned false e s u t h = (refl, ap (λ p. p.1) h)

  pub lift-returned :
      {A : Type 0} (r : Result A) (s : S) (a : A) (t : S)
      → lift r s ≡ (ok a, t)
      → (r ≡ ok a) × (s ≡ t)
  lift-returned r s a t h = (ap (λ p. p.0) h, ap (λ p. p.1) h)
