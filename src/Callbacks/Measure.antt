-- ===== src/Callbacks/Measure.antt =====
-- The objects that a search has not seen become fewer.
use tirtc_client_python.Prelude.{
  ℕ, zero, suc, ◌+◌, ◌≤◌, ◌<◌, ◌≡◌, refl, Bool, true, false, not, ◌&&◌, Option, none, some, List,
  [], ◌∷◌, ◌++◌, ◌==◌, ltb, count_if, subst, Bool-cases, inl, inr, arith,
}
use tirtc_client_python.Callbacks.{mem}

abbrev pub below : ℕ → List ℕ
below zero = []
below (suc n) = n ∷ below n

-- How many objects have not been seen.
abbrev pub fresh : ℕ → List ℕ → ℕ
fresh size seen = count_if (λ v. not (mem v seen)) (below size)

fresh-le : (c : ℕ) (seen : List ℕ) (size : ℕ) → fresh size (c ∷ seen) ≤ fresh size seen
fresh-le c seen zero = omega arith
fresh-le c seen (suc n) = ground (arith, fresh-le c seen n)

pub fresh_less :
    (c : ℕ) (seen : List ℕ) (size : ℕ)
    → c < size
    → mem c seen ≡ false
    → fresh size (c ∷ seen) + 1 ≤ fresh size seen
fresh_less c seen zero h new = absurd (omega (arith, h))
fresh_less c seen (suc n) h new = elim (Bool-cases (c == n)) [
  | inl same ↦
      let at : c ≡ n = ground (arith, same) in
      let unseen : mem n seen ≡ false = subst (λ v. mem v seen ≡ false) at new in
      ground (arith, unseen, same, fresh-le c seen n)
  | inr other ↦
      let smaller : c < n = ground (arith, other, h) in
      ground (arith, other, fresh_less c seen n smaller new)
]

pub fresh-empty : (size : ℕ) → fresh size [] ≤ size
fresh-empty zero = omega arith
fresh-empty (suc n) = ground (arith, fresh-empty n)

-- Every object of a list is below `size`.
abbrev pub all_below : ℕ → List (Option ℕ) → Bool
all_below size [] = true
all_below size (none ∷ rest) = all_below size rest
all_below size (some v ∷ rest) = ltb v size && all_below size rest

pub both : (a b : Bool) → (a && b) ≡ true → (a ≡ true) × (b ≡ true)
both true b h = (refl, h)
both false b h = absurd (ground (arith, h))

pub all_below-append :
    (size : ℕ) (xs ys : List (Option ℕ))
    → all_below size xs ≡ true
    → all_below size ys ≡ true
    → all_below size (xs ++ ys) ≡ true
all_below-append size [] ys h k = k
all_below-append size (none ∷ xs) ys h k = all_below-append size xs ys h k
all_below-append size (some v ∷ xs) ys h k =
    let (head, rest) = both (ltb v size) (all_below size xs) h in
    ground (arith, head, all_below-append size xs ys rest k)
