-- ===== src/Errors/Action.antt =====
-- Python's exceptions, and calls that change a state and may raise. The state comes back after a
-- raise too, since what was written stays written.
use tirtc_client_python.Prelude.{String, Bool, if◌then◌else◌}
use tirtc_client_python.Errors.{TirtcError}

pub data Builtin : Type 0 where
  type_error value_error key_error index_error runtime_error assertion_error : Builtin

-- An SDK error, one of Python's own with its message, or any other that foreign code raises.
pub data Exception : Type 0 where
  sdk : TirtcError → Exception
  builtin : Builtin → String → Exception
  foreign : String → Exception

pub data Result {ℓ} (A : Type ℓ) : Type ℓ where
  ok : A → Result A
  err : Exception → Result A

abbrev pub Action : Type 0 → Type 0 → Type 0
Action S A = S → Result A × S

module _ {S : Type 0} where
  abbrev pub pure : {A : Type 0} → A → Action S A
  pure a s = (ok a, s)

  abbrev pub raise : {A : Type 0} → Exception → Action S A
  raise e s = (err e, s)

  abbrev pub gets : {A : Type 0} → (S → A) → Action S A
  gets f s = (ok (f s), s)

  abbrev pub modify : (S → S) → Action S (Unit {0})
  modify f s = (ok tt, f s)

  abbrev pub raise_if : Bool → Exception → Action S (Unit {0})
  raise_if test e s = (if test then err e else ok tt, s)

  -- A call that only computes.
  abbrev pub lift : {A : Type 0} → Result A → Action S A
  lift r s = (r, s)

  infixl 5 ◌>>=◌ ◌>>◌
  abbrev pub ◌>>=◌ : {A B : Type 0} → Action S A → (A → Action S B) → Action S B
  ◌>>=◌ m f s = let (r, s') = m s in elim r [ ok a ↦ f a s' | err e ↦ raise e s' ]

  abbrev pub ◌>>◌ : {A B : Type 0} → Action S A → Action S B → Action S B
  m >> k = m >>= λ _. k
