-- ===== src/RawDump/Ids.antt =====
-- The stream ids that are let through: in range, each once, and just those given.
use mathlib.Core.List.{append-nil, append_assoc}
use tirtc_client_python.Prelude.{
  ◌≤◌, ◌≡◌, refl, sym, ap, subst, ◌∙◌, String, Bool, true, false, List, [], ◌∷◌, ◌++◌, arith, any,
  count_if, map, count_if-append, any-append-singleton, any-count_if, if◌then◌else◌, if-cases,
  Bool-cases, inl, inr,
}
use tirtc_client_python.Prelude.Int.{ℤ, pos, negsuc, eqb_ℤ}
use tirtc_client_python.Objects.{Object, none_value, bool, int, str, bytes, timedelta, other}
use tirtc_client_python.Errors.Action.{Result, ok, err}
use tirtc_client_python.RawDump.{
  out_of_range, seen, add_new, collect, iterable, normalize_raw_dump_ids,
}

-- Whether an object is the integer `v`.
abbrev pub is_int : ℤ → Object → Bool
is_int v (int w) = eqb_ℤ v w
is_int v _ = false

abbrev pub IsNormal : ℤ → List ℤ → Type 0
IsNormal maximum ids =
    (any (out_of_range maximum) ids ≡ false) × ((v : ℤ) → count_if (eqb_ℤ v) ids ≤ 1)

eqb→path : (v w : ℤ) → eqb_ℤ v w ≡ true → v ≡ w
eqb→path (pos a) (pos b) h = ap pos (ground arith)
eqb→path (negsuc a) (negsuc b) h = ap negsuc (ground arith)
eqb→path (pos a) (negsuc b) h = ground arith
eqb→path (negsuc a) (pos b) h = ground arith

absent :
    (v w : ℤ) (ids : List ℤ) → seen v ids ≡ false → eqb_ℤ w v ≡ true → count_if (eqb_ℤ w) ids ≡ 0
absent v w ids h same =
    any-count_if (eqb_ℤ w) ids (subst (λ u. any (eqb_ℤ u) ids ≡ false) (sym (eqb→path w v same)) h)

add_new-IsNormal :
    (maximum v : ℤ) (ids : List ℤ)
    → out_of_range maximum v ≡ false
    → IsNormal maximum ids
    → IsNormal maximum (add_new v ids)
unfolding add_new
add_new-IsNormal maximum v ids fits (bounded, distinct) = (
  ground (arith, bounded, any-append-singleton (out_of_range maximum) ids v),
  λ w. ground (arith, distinct w, count_if-append (eqb_ℤ w) ids (v ∷ []), absent v w ids),
)

known : (v w : ℤ) (ids : List ℤ) → seen v ids ≡ true → eqb_ℤ w v ≡ true → seen w ids ≡ true
known v w ids h same = subst (λ u. any (eqb_ℤ u) ids ≡ true) (sym (eqb→path w v same)) h

add_new-seen :
    (v w : ℤ) (ids : List ℤ) → seen w (add_new v ids) ≡ (if eqb_ℤ w v then true else seen w ids)
unfolding add_new
add_new-seen v w ids = elim (Bool-cases (seen v ids)) [
  | inl old ↦ rw old (ground (arith, known v w ids old))
  | inr new ↦ rw new (ground (arith, any-append-singleton (eqb_ℤ w) ids v))
]

-- The loop keeps the results normal and adds the integers of the source to them.
abbrev Collected : ℤ → List ℤ → List Object → Result (List ℤ) → Type 0
Collected maximum result source (ok ids) =
    IsNormal maximum ids
    × ((v : ℤ) → seen v ids ≡ (if seen v result then true else any (is_int v) source))
Collected maximum result source (err e) = Unit

after_integer :
    (maximum v : ℤ) (result : List ℤ) (source : List Object) (x : Result (List ℤ))
    → Collected maximum (add_new v result) source x
    → Collected maximum result (int v ∷ source) x
after_integer maximum v result source (ok ids) (normal, members) =
    (normal, λ w. ground (arith, members w, add_new-seen v w result))
after_integer maximum v result source (err e) c = tt

collect-Collected :
    (name : String) (maximum : ℤ) (result : List ℤ) (source : List Object)
    → IsNormal maximum result
    → Collected maximum result source (collect name maximum result source)
unfolding collect
collect-Collected name maximum result [] normal = (normal, λ v. ground arith)
collect-Collected name maximum result (int v ∷ source) normal =
    if-cases (Collected maximum result (int v ∷ source)) (out_of_range maximum v) (λ out. tt)
      λ fits.
        after_integer maximum v result source (collect name maximum (add_new v result) source) (
          collect-Collected name maximum (add_new v result) source
            (add_new-IsNormal maximum v result fits normal))
collect-Collected name maximum result (none_value ∷ source) normal = tt
collect-Collected name maximum result (bool b ∷ source) normal = tt
collect-Collected name maximum result (str b ∷ source) normal = tt
collect-Collected name maximum result (bytes b ∷ source) normal = tt
collect-Collected name maximum result (timedelta b n m ∷ source) normal = tt
collect-Collected name maximum result (other b ∷ source) normal = tt

-- Where the ids of a source are let through, each lies within the bounds, none is there twice, and
-- an integer is among them just where it is in the source.
pub normalize_raw_dump_ids-IsNormal :
    (name : String) (maximum : ℤ) (source : List Object) (ids : List ℤ)
    → normalize_raw_dump_ids (iterable source) name maximum ≡ ok ids
    → IsNormal maximum ids × ((v : ℤ) → seen v ids ≡ any (is_int v) source)
unfolding normalize_raw_dump_ids
normalize_raw_dump_ids-IsNormal name maximum source ids h =
    subst (Collected maximum [] source) h
      (collect-Collected name maximum [] source (refl, λ v. omega arith))

eqb_ℤ_refl : (v : ℤ) → eqb_ℤ v v ≡ true
eqb_ℤ_refl (pos n) = ground arith
eqb_ℤ_refl (negsuc n) = ground arith

count-any : (p : ℤ → Bool) (ids : List ℤ) → count_if p ids ≤ 0 → any p ids ≡ false
count-any p [] h = refl
count-any p (x ∷ ids) h = ground (arith, count-any p ids)

any-append : (p : ℤ → Bool) (xs ys : List ℤ) → any p (xs ++ ys) ≡ false → any p ys ≡ false
any-append p [] ys h = h
any-append p (x ∷ xs) ys h = ground (arith, any-append p xs ys)

-- The first id of what is left is in range and new.
head_fits :
    (maximum v : ℤ) (result rest : List ℤ)
    → IsNormal maximum (result ++ v ∷ rest)
    → (out_of_range maximum v ≡ false) × (seen v result ≡ false)
head_fits maximum v result rest (bounded, distinct) = (
  ground (arith, any-append (out_of_range maximum) result (v ∷ rest) bounded),
  ground (
    arith,
    distinct v,
    count_if-append (eqb_ℤ v) result (v ∷ rest),
    eqb_ℤ_refl v,
    count-any (eqb_ℤ v) result,
  ),
)

if_false : {A : Type 0} (b : Bool) (x y : A) → b ≡ false → (if b then x else y) ≡ y
if_false true x y h = ground arith
if_false false x y h = refl

collect-normal :
    (name : String) (maximum : ℤ) (result rest : List ℤ)
    → IsNormal maximum (result ++ rest)
    → collect name maximum result (map int rest) ≡ ok (result ++ rest)
unfolding collect add_new
collect-normal name maximum result [] normal = ap ok (sym (append-nil result))
collect-normal name maximum result (v ∷ rest) normal =
    let (fits, new) = head_fits maximum v result rest normal in
    let assoc = append_assoc result (v ∷ []) rest in
    if_false (out_of_range maximum v) _ _ fits
    ∙ ap (λ r. collect name maximum r (map int rest)) (if_false (seen v result) _ _ new)
    ∙ collect-normal name maximum (result ++ v ∷ []) rest
        (subst (IsNormal maximum) (sym assoc) normal)
    ∙ ap ok assoc

-- Ids that were let through are let through again as they are, in their order.
pub normalize_raw_dump_ids_stable :
    (name : String) (maximum : ℤ) (source : List Object) (ids : List ℤ)
    → normalize_raw_dump_ids (iterable source) name maximum ≡ ok ids
    → normalize_raw_dump_ids (iterable (map int ids)) name maximum ≡ ok ids
unfolding normalize_raw_dump_ids
normalize_raw_dump_ids_stable name maximum source ids h =
    collect-normal name maximum [] ids (normalize_raw_dump_ids-IsNormal name maximum source ids h).0
