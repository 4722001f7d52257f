-- ===== src/Errors/Fallible.antt =====
-- Chains of calls that only compute and may raise.
use tirtc_client_python.Prelude.{Bool, true, false, ◌≡◌, refl, ap, arith}
use tirtc_client_python.Errors.Action.{Exception, Result, ok, err}

infixl 5 ◌>>=◌ ◌>>◌
abbrev pub ◌>>=◌ {ℓ κ} : {A : Type ℓ} {B : Type κ} → Result A → (A → Result B) → Result B
ok a >>= f = f a
err e >>= f = err e

abbrev pub ◌>>◌ {ℓ κ} : {A : Type ℓ} {B : Type κ} → Result A → Result B → Result B
m >> k = m >>= λ _. k

abbrev pub raise_if : Bool → Exception → Result (Unit {0})
raise_if true e = err e
raise_if false e = ok tt

-- A chain that returns has a first call that does.
pub bind-ok {ℓ κ} :
    {A : Type ℓ} {B : Type κ} (m : Result A) (f : A → Result B) (b : B)
    → (m >>= f) ≡ ok b
    → (a : A) × (m ≡ ok a) × (f a ≡ ok b)
bind-ok (ok a) f b h = (a, refl, h)
bind-ok (err e) f b h = ground arith

-- What a call returned, or another value where it raised.
abbrev pub value_or {ℓ} : {A : Type ℓ} → A → Result A → A
value_or a (ok x) = x
value_or a (err e) = a

pub ok_injective {ℓ} : {A : Type ℓ} (a b : A) → ok a ≡ ok b → a ≡ b
ok_injective a b h = ap (value_or a) h
