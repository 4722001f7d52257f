-- ===== src/Prelude/Lists.antt =====
-- Lists measured by native numbers, under the library's names.
use Prim.Native.Nat.{ℕ, suc, ◌+◌, ◌≤◌}
use mathlib.Core.Path.{◌≡◌, refl}
use mathlib.Core.Bool.{Bool, true, false}
use mathlib.Core.List.{List, [], ◌∷◌, ◌++◌}
use native.Mathlib.Omega.{arith}
use tirtc_client_python.Prelude.Tests.{if◌then◌else◌}

module _ {ℓ} {A : Type ℓ} where
  abbrev pub length : List A → ℕ
  length [] = 0
  length (x ∷ xs) = suc (length xs)

  pub length-append : (xs ys : List A) → length (xs ++ ys) ≡ length xs + length ys
  length-append [] ys = omega arith
  length-append (x ∷ xs) ys = omega (arith, length-append xs ys)

  abbrev pub is_empty : List A → Bool
  is_empty [] = true
  is_empty (x ∷ xs) = false

  -- How many entries pass a test.
  abbrev pub count_if : (A → Bool) → List A → ℕ
  count_if p [] = 0
  count_if p (x ∷ xs) = if p x then suc (count_if p xs) else count_if p xs

  -- The entries that pass a test, in order.
  abbrev pub keep_if : (A → Bool) → List A → List A
  keep_if p [] = []
  keep_if p (x ∷ xs) = if p x then x ∷ keep_if p xs else keep_if p xs

  abbrev pub any : (A → Bool) → List A → Bool
  any p [] = false
  any p (x ∷ xs) = if p x then true else any p xs

  pub count_if-append :
      (p : A → Bool) (xs ys : List A) → count_if p (xs ++ ys) ≡ count_if p xs + count_if p ys
  count_if-append p [] ys = omega arith
  count_if-append p (x ∷ xs) ys = ground (arith, count_if-append p xs ys)

  pub keep_if-append :
      (p : A → Bool) (xs ys : List A) → keep_if p (xs ++ ys) ≡ keep_if p xs ++ keep_if p ys
  keep_if-append p [] ys = refl
  keep_if-append p (x ∷ xs) ys = ground (arith, keep_if-append p xs ys)

  pub count_if-le : (p : A → Bool) (xs : List A) → count_if p xs ≤ length xs
  count_if-le p [] = omega arith
  count_if-le p (x ∷ xs) = ground (arith, count_if-le p xs)

  pub any-append-singleton :
      (p : A → Bool) (xs : List A) (x : A) → any p (xs ++ x ∷ []) ≡ (if any p xs then true else p x)
  any-append-singleton p [] x = ground arith
  any-append-singleton p (y ∷ xs) x = ground (arith, any-append-singleton p xs x)

  -- The count at one place of a list.
  pub count_if-middle :
      (p : A → Bool) (xs : List A) (x : A) (ys : List A)
      → count_if p (xs ++ x ∷ ys) ≡ count_if p xs + count_if p ys + (if p x then 1 else 0)
  count_if-middle p xs x ys = ground (arith, count_if-append p xs (x ∷ ys))

  pub any-count_if : (p : A → Bool) (xs : List A) → any p xs ≡ false → count_if p xs ≡ 0
  any-count_if p [] h = refl
  any-count_if p (x ∷ xs) h = ground (arith, any-count_if p xs)

  pub length-middle :
      (xs : List A) (x : A) (ys : List A) → length (xs ++ x ∷ ys) ≡ length xs + length ys + 1
  length-middle xs x ys = omega (arith, length-append xs (x ∷ ys))

  pub count_if-keep_if-le :
      (p q : A → Bool) (xs : List A) → count_if p (keep_if q xs) ≤ count_if p xs
  count_if-keep_if-le p q [] = omega arith
  count_if-keep_if-le p q (x ∷ xs) = ground (arith, count_if-keep_if-le p q xs)

  pub length-keep_if : (q : A → Bool) (xs : List A) → length (keep_if q xs) ≡ count_if q xs
  length-keep_if q [] = refl
  length-keep_if q (x ∷ xs) = ground (arith, length-keep_if q xs)
