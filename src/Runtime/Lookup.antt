-- ===== src/Runtime/Lookup.antt =====
-- How a list of leases is searched, and what taking one out leaves.
use tirtc_client_python.Prelude.{
  ℕ, ◌+◌, ◌≤◌, ◌≡◌, refl, Bool, false, none, some, List, [], ◌∷◌, arith, ◌==◌, if◌then◌else◌, any,
  count_if,
}
use tirtc_client_python.Runtime.{Lease}
use tirtc_client_python.Runtime.Leases.{find, remove}

abbrev pub has_id : ℕ → Lease → Bool
has_id i l = l.id == i

pub find-id : (i : ℕ) (ls : List Lease) (l : Lease) → find i ls ≡ some l → l.id ≡ i
find-id i [] l h = ground arith
find-id i (x ∷ ls) l h = ground (arith, find-id i ls l)

pub count_if-remove :
    (p : Lease → Bool) (i : ℕ) (ls : List Lease) (l : Lease)
    → find i ls ≡ some l
    → count_if p ls ≡ count_if p (remove i ls) + (if p l then 1 else 0)
count_if-remove p i [] l h = ground arith
count_if-remove p i (x ∷ ls) l h = ground (arith, count_if-remove p i ls l)

pub any-remove :
    (p : Lease → Bool) (i : ℕ) (ls : List Lease) → any p ls ≡ false → any p (remove i ls) ≡ false
any-remove p i [] h = refl
any-remove p i (x ∷ ls) h = ground (arith, any-remove p i ls)

count-any : (p : Lease → Bool) (ls : List Lease) → count_if p ls ≤ 0 → any p ls ≡ false
count-any p [] h = refl
count-any p (x ∷ ls) h = ground (arith, count-any p ls)

pub remove-removes :
    (i : ℕ) (ls : List Lease) → count_if (has_id i) ls ≤ 1 → any (has_id i) (remove i ls) ≡ false
remove-removes i [] h = refl
remove-removes i (x ∷ ls) h = ground (arith, remove-removes i ls, count-any (has_id i) ls)

-- A test that fails wherever two others fail.
pub any-weaken :
    (p q r : Lease → Bool)
    → ((l : Lease) → p l ≡ false → q l ≡ false → r l ≡ false)
    → (ls : List Lease) → any p ls ≡ false
    → any q ls ≡ false
    → any r ls ≡ false
any-weaken p q r k [] h g = refl
any-weaken p q r k (x ∷ ls) h g = ground (arith, any-weaken p q r k ls, k x)

pub absent-find : (i : ℕ) (ls : List Lease) → any (has_id i) ls ≡ false → find i ls ≡ none
absent-find i [] h = refl
absent-find i (x ∷ ls) h = ground (arith, absent-find i ls)

pub find-remove-other :
    (i j : ℕ) (ls : List Lease) → (i == j) ≡ false → find j (remove i ls) ≡ find j ls
find-remove-other i j [] h = refl
find-remove-other i j (x ∷ ls) h = ground (arith, find-remove-other i j ls)

pub found-any :
    (p : Lease → Bool) (i : ℕ) (ls : List Lease) (l : Lease)
    → find i ls ≡ some l
    → any p ls ≡ false
    → p l ≡ false
found-any p i [] l h k = ground arith
found-any p i (x ∷ ls) l h k = ground (arith, found-any p i ls l)
