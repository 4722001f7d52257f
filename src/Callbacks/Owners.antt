-- ===== src/Callbacks/Owners.antt =====
-- The search for the client of a callback ends.
use tirtc_client_python.Prelude.{
  ℕ, zero, suc, ◌+◌, ◌<◌, ◌≡◌, refl, Bool, true, false, Option, none, some, List, [], ◌∷◌, ltb,
  ltb→lt, arith,
}
use tirtc_client_python.Callbacks.{Objects, mem, or_else, client_of, climb, rtc_callback_client}
use tirtc_client_python.Callbacks.Measure.{fresh, fresh_less, fresh-empty}

-- A client, or nobody.
abbrev pub IsAnswer : Objects → Option (Option ℕ) → Type 0
IsAnswer objects none = ⊥
IsAnswer objects (some none) = Unit {0}
IsAnswer objects (some (some c)) = objects.is_client c ≡ true

abbrev pub inside : ℕ → Option ℕ → Bool
inside size none = true
inside size (some v) = ltb v size

elim-cases :
    {A : Type 0} (P : A → Type 0) (b : Bool) (x y : A)
    → (b ≡ true → P x)
    → (b ≡ false → P y)
    → P (elim b [ true ↦ x | false ↦ y ])
elim-cases P true x y held failed = held refl
elim-cases P false x y held failed = failed refl

module _ (objects : Objects) (size : ℕ)
    (bounded : (v : ℕ) → inside size (or_else (objects.parent v) (objects.bound v)) ≡ true) where
  client_of-IsAnswer :
      (o : Option ℕ) (rest : Option (Option ℕ))
      → IsAnswer objects rest
      → IsAnswer objects (elim (client_of objects o) [ some c ↦ some (some c) | none ↦ rest ])
  client_of-IsAnswer none rest h = h
  client_of-IsAnswer (some c) rest h =
      elim-cases
        (λ (o : Option ℕ). IsAnswer objects (elim o [ some d ↦ some (some d) | none ↦ rest ]))
        (objects.is_client c) (some c) none (λ known. known) λ other. h

  climb-IsAnswer :
      (fuel : ℕ) (owner : Option ℕ) (seen : List ℕ)
      → inside size owner ≡ true
      → fresh size seen + 1 < fuel
      → IsAnswer objects (climb objects fuel owner seen)
  unfolding climb
  climb-IsAnswer zero owner seen small enough = absurd (ground (arith, enough))
  climb-IsAnswer (suc fuel) none seen small enough = tt
  climb-IsAnswer (suc fuel) (some v) seen small enough =
      elim-cases (IsAnswer objects) (mem v seen) (some none) _ (λ old. tt)
        λ new.
          elim-cases (IsAnswer objects) (objects.is_client v) (some (some v)) _ (λ known. known)
            λ other. client_of-IsAnswer (objects.client v) _ (
              climb-IsAnswer fuel (or_else (objects.parent v) (objects.bound v)) (v ∷ seen)
                (bounded v)
                (omega (arith, enough, fresh_less v seen size (ltb→lt v size small) new)))

  -- Where the numbers of the objects stay below `size`, the search for the client of a callback
  -- ends, whatever cycles the attributes make, and what it gives is a client or nobody.
  pub rtc_callback_client-IsAnswer :
      (owner : Option ℕ)
      → inside size owner ≡ true
      → IsAnswer objects (rtc_callback_client objects size owner)
  unfolding rtc_callback_client
  rtc_callback_client-IsAnswer owner small =
      climb-IsAnswer (size + 2) owner [] small (omega (arith, fresh-empty size))
