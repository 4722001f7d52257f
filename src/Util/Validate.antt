-- ===== src/Util/Validate.antt =====
-- src/tirtc/_util.py: the validators of integers, texts and durations. A `timedelta` has its days
-- with a sign, and seconds and microseconds below a day and a second.
pub mod Bounds
mod Tests
use Prim.Native.String.{◌++◌}
use tirtc_client_python.Prelude.{
  ℕ, suc, ◌+◌, ◌-◌, ◌*◌, ◌/◌, ◌%◌, String, Bool, ◌||◌, not, ◌==◌, if◌then◌else◌,
}
use tirtc_client_python.Prelude.Text.{is_empty_text, decimal}
use tirtc_client_python.Prelude.Int.{ℤ, pos, negsuc, sub_ℕ, ltb_ℤ}
use tirtc_client_python.Objects.{Object, int, str, timedelta}
use tirtc_client_python.Errors.Action.{Builtin, builtin, type_error, value_error, Result, ok, err}
use tirtc_client_python.Errors.Fallible.{◌>>=◌}
use tirtc_client_python.Runtime.Paths.{contains_nul}

unfoldable pub refuse : {A : Type 0} → Builtin → String → Result A
refuse b message = err (builtin b message)

-- `_nonempty_string`
unfoldable pub nonempty_string : Object → String → Result String
unfolding refuse contains_nul
nonempty_string (str value) name =
    if is_empty_text value
    then refuse value_error (name ++ " must not be empty")
    else if contains_nul value
    then refuse value_error (name ++ " must not contain NUL")
    else ok value
nonempty_string _ name = refuse type_error (name ++ " must be str")

-- `_integer`
unfoldable pub integer : Object → String → ℤ → ℤ → Result ℤ
unfolding refuse decimal
integer (int value) name minimum maximum =
    if ltb_ℤ value minimum || ltb_ℤ maximum value
    then refuse value_error
        (name ++ " must be between " ++ decimal minimum ++ " and " ++ decimal maximum)
    else ok value
integer _ name minimum maximum = refuse type_error (name ++ " must be int")

unfoldable pub stream_id : Object → String → Result ℤ
unfolding integer
stream_id value name = integer value name (pos 0) (pos 15)

unfoldable pub channel_id : Object → String → Result ℤ
unfolding integer
channel_id value name = integer value name (pos 0) (pos 255)

abbrev pub microseconds : ℤ → ℕ → ℕ → ℤ
microseconds (pos days) s u = pos (days * 86_400_000_000 + s * 1_000_000 + u)
microseconds (negsuc days) s u = sub_ℕ (s * 1_000_000 + u) (suc days * 86_400_000_000)

-- `_duration_us`
unfoldable pub duration_us : Object → String → Result ℤ
unfolding refuse
duration_us (timedelta days s u) name = ok (microseconds days s u)
duration_us _ name = refuse type_error (name ++ " must be datetime.timedelta")

-- `value % 1000 == 0`, and `value // 1000` where that is so.
abbrev pub is_whole : ℤ → Bool
is_whole (pos n) = n % 1000 == 0
is_whole (negsuc n) = suc n % 1000 == 0

abbrev pub thousandth : ℤ → ℤ
thousandth (pos n) = pos (n / 1000)
thousandth (negsuc n) = negsuc (suc n / 1000 - 1)

whole_ms : String → ℤ → Result ℤ
unfolding refuse
whole_ms name us =
    if not (is_whole us)
    then refuse value_error (name ++ " must use whole milliseconds")
    else ok (thousandth us)

-- `_duration_ms`
unfoldable pub duration_ms : Object → String → Result ℤ
unfolding duration_us whole_ms
duration_ms value name = duration_us value name >>= whole_ms name

-- `timedelta(milliseconds=n)`
abbrev pub timedelta_ms : ℕ → Object
timedelta_ms n = timedelta (pos (n / 86_400_000)) (n % 86_400_000 / 1000) (n % 1000 * 1000)
