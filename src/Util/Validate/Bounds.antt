-- ===== src/Util/Validate/Bounds.antt =====
-- What the validators let through.
use tirtc_client_python.Prelude.{
  ℕ, suc, ◌+◌, ◌-◌, ◌*◌, ◌/◌, ◌%◌, ◌≡◌, refl, sym, subst, ap, ◌∙◌, String, Bool, true, false, ltb,
  ◌||◌, ◌≤◌, arith, if◌then◌else◌,
}
use tirtc_client_python.Prelude.Int.{ℤ, pos, negsuc, ltb_ℤ, ◌≤ℤ◌}
use tirtc_client_python.Objects.{Object, none_value, bool, int, str, bytes, timedelta, other}
use tirtc_client_python.Errors.Action.{Exception, ok, err}
use tirtc_client_python.Util.Validate.{
  integer, microseconds, is_whole, thousandth, whole_ms, duration_us, duration_ms, timedelta_ms,
}

integer-same :
    (w : ℤ) (name : String) (minimum maximum v : ℤ)
    → integer (int w) name minimum maximum ≡ ok v
    → w ≡ v
unfolding integer
integer-same w name minimum maximum v h = ground arith

passes : (b : Bool) (e : Exception) (w v : ℤ) → (if b then err e else ok w) ≡ ok v → b ≡ false
passes true e w v h = ground arith
passes false e w v h = refl

pub neither : (a b : Bool) → (a || b) ≡ false → (a ≡ false) × (b ≡ false)
neither true b h = ground arith
neither false b h = (refl, h)

pub ge_of_ltb : (a b : ℕ) → ltb a b ≡ false → b ≤ a
ge_of_ltb a b h = ground arith

integer-within :
    (w : ℤ) (name : String) (minimum maximum v : ℤ)
    → integer (int w) name minimum maximum ≡ ok v
    → (minimum ≤ℤ w) × (w ≤ℤ maximum)
unfolding integer
integer-within w name minimum maximum v h =
    let (low, high) = neither _ _ (passes (ltb_ℤ w minimum || ltb_ℤ maximum w) _ w v h) in
    (ge_of_ltb _ _ low, ge_of_ltb _ _ high)

-- What `_integer` returns is the integer that it was given, not a bool, and between the bounds.
pub integer-bounds :
    (o : Object) (name : String) (minimum maximum v : ℤ)
    → integer o name minimum maximum ≡ ok v
    → (o ≡ int v) × (minimum ≤ℤ v) × (v ≤ℤ maximum)
unfolding integer
integer-bounds (int w) name minimum maximum v h =
    let same = integer-same w name minimum maximum v h in
    let within = integer-within w name minimum maximum v h in
    subst (λ u. (int w ≡ int u) × (minimum ≤ℤ u) × (u ≤ℤ maximum)) same (refl, within.0, within.1)
integer-bounds none_value name minimum maximum v h = ground arith
integer-bounds (bool b) name minimum maximum v h = ground arith
integer-bounds (str b) name minimum maximum v h = ground arith
integer-bounds (bytes b) name minimum maximum v h = ground arith
integer-bounds (timedelta d s u) name minimum maximum v h = ground arith
integer-bounds (other i) name minimum maximum v h = ground arith

-- A thousand times an integer.
abbrev pub thousand : ℤ → ℤ
thousand (pos n) = pos (n * 1000)
thousand (negsuc n) = negsuc (suc n * 1000 - 1)

whole-thousand : (us : ℤ) → is_whole us ≡ true → us ≡ thousand (thousandth us)
whole-thousand (pos n) h = ap pos (ground arith)
whole-thousand (negsuc n) h = ap negsuc (ground arith)

whole_ms-thousand : (name : String) (us ms : ℤ) → whole_ms name us ≡ ok ms → us ≡ thousand ms
unfolding whole_ms
whole_ms-thousand name us ms h = whole-thousand us (whole us h) ∙ ap thousand (same us h)
  where
    whole : (us : ℤ) → whole_ms name us ≡ ok ms → is_whole us ≡ true
    whole us h = ground arith

    same : (us : ℤ) → whole_ms name us ≡ ok ms → thousandth us ≡ ms
    same us h = ground arith

-- Where `_duration_ms` returns, the duration is exactly that many thousands of microseconds.
pub duration_ms-exact :
    (o : Object) (name : String) (ms : ℤ)
    → duration_ms o name ≡ ok ms
    → duration_us o name ≡ ok (thousand ms)
unfolding duration_ms duration_us
duration_ms-exact (timedelta d s u) name ms h =
    ap ok (whole_ms-thousand name (microseconds d s u) ms h)
duration_ms-exact none_value name ms h = ground arith
duration_ms-exact (int w) name ms h = ground arith
duration_ms-exact (bool b) name ms h = ground arith
duration_ms-exact (str b) name ms h = ground arith
duration_ms-exact (bytes b) name ms h = ground arith
duration_ms-exact (other i) name ms h = ground arith

total_ms :
    (n : ℕ)
    → n / 86_400_000 * 86_400_000_000 + n % 86_400_000 / 1000 * 1_000_000 + n % 1000 * 1000
      ≡ n * 1000
total_ms n = omega arith

whole_ms-times : (n : ℕ) (name : String) → whole_ms name (pos (n * 1000)) ≡ ok (pos n)
unfolding whole_ms
whole_ms-times n name = ground arith

-- A duration of `n` milliseconds, as the library builds it, is let through as `n`.
pub duration_ms-timedelta_ms :
    (n : ℕ) (name : String) → duration_ms (timedelta_ms n) name ≡ ok (pos n)
unfolding duration_ms
duration_ms-timedelta_ms n name =
    subst (λ k. whole_ms name (pos k) ≡ ok (pos n)) (sym (total_ms n)) (whole_ms-times n name)
