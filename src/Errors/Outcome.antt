-- ===== src/Errors/Outcome.antt =====
-- What a call comes to: `E` of a raise, `Q` of a return, each with the state it leaves.
use tirtc_client_python.Errors.Action.{Exception, Result, ok, err, Action, ◌>>=◌}

module _ {S : Type 0} where
  abbrev pub Outcome :
      {A : Type 0} → (Exception → S → Type 0) → (A → S → Type 0) → Result A × S → Type 0
  Outcome E Q (ok a, s) = Q a s
  Outcome E Q (err e, s) = E e s

  pub bind-Outcome :
      {A B : Type 0} (E : Exception → S → Type 0) (G : A → S → Type 0) (Q : B → S → Type 0)
      (m : Action S A) (f : A → Action S B) (s : S)
      → Outcome E G (m s)
      → ((a : A) (t : S) → G a t → Outcome E Q (f a t))
      → Outcome E Q ((m >>= f) s)
  bind-Outcome {A = A} {B = B} E G Q m f s h k = go (m s) h
    where
      go :
          (r : Result A × S)
          → Outcome E G r
          → Outcome E Q (let (a, t) = r in elim a [ ok x ↦ f x t | err e ↦ (err e, t) ])
      go (ok a, t) g = k a t g
      go (err e, t) g = g
