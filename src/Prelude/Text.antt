-- ===== src/Prelude/Text.antt =====
-- Texts: a test for the empty one, the decimal numeral of a number, and a test of the end.
use Prim.Native.Nat.{ℕ, zero, suc, ◌-◌, ◌/◌, ◌%◌}
use Prim.Native.String.{String, ◌++◌, len, slice}
use mathlib.Core.Path.{◌≡◌, refl}
use mathlib.Core.Bool.{Bool, true, false, ◌&&◌}
use text.Mathlib.Text.{◌==◌ as str_eq}
use tirtc_client_python.Prelude.Tests.{leb, ltb, ◌==◌, if◌then◌else◌}
use tirtc_client_python.Prelude.Int.{ℤ, pos, negsuc}

abbrev pub is_empty_text : String → Bool
is_empty_text String.[] = true
is_empty_text (String.◌∷◌ c s) = false

abbrev digit : ℕ → String
digit d =
    if d == 0
    then "0"
    else if d == 1
    then "1"
    else if d == 2
    then "2"
    else if d == 3
    then "3"
    else if d == 4
    then "4"
    else if d == 5
    then "5"
    else if d == 6
    then "6"
    else if d == 7
    then "7"
    else if d == 8
    then "8"
    else "9"

-- The fuel bounds the number of digits; a number has at most itself plus one of them.
decimal_fuel : ℕ → ℕ → String
decimal_fuel zero n = ""
decimal_fuel (suc fuel) n =
    let rest = decimal_fuel fuel (n / 10) in if ltb n 10 then digit n else rest ++ digit (n % 10)

-- `str(n)`
unfoldable pub decimal : ℤ → String
unfolding decimal_fuel
decimal (pos n) = decimal_fuel (suc n) n
decimal (negsuc n) = "-" ++ decimal_fuel (suc (suc n)) (suc n)

-- `s.endswith(t)`, on the bytes.
unfoldable pub ends_with : String → String → Bool
ends_with s t = leb (len t) (len s) && str_eq (slice s (len s - len t) (len s)) t

test_decimal : decimal (negsuc 6025) ≡ "-6026"
unfolding decimal
test_decimal = refl

test_ends : ends_with "video_frame" "_frame" ≡ true
unfolding ends_with
test_ends = refl
