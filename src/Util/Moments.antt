-- ===== src/Util/Moments.antt =====
-- src/tirtc/_util.py: moments and timeouts. A moment in UTC is the number of microseconds from the
-- Unix epoch, with a sign. A finite number of seconds is a multiple of the smallest double.
mod Bounds
mod Tests
use Prim.Native.String.{◌++◌}
use tirtc_client_python.Prelude.{
  suc, ◌-◌, ◌*◌, String, Bool, true, false, Option, none, some, ◌||◌, not, if◌then◌else◌,
}
use tirtc_client_python.Prelude.Int.{ℤ, pos, negsuc, ltb_ℤ, leb_ℤ}
use tirtc_client_python.Errors.Action.{
  Exception, Builtin, builtin, foreign, type_error, value_error, Result, ok, err,
}
use tirtc_client_python.Errors.Fallible.{◌>>=◌}
use tirtc_client_python.Util.Validate.{refuse, is_whole, thousandth}

-- What is handed over for a moment: no `datetime`, one without a time zone, or one with.
pub data TimeArgument : Type 0 where
  no_datetime : TimeArgument
  naive : TimeArgument
  at : ℤ → TimeArgument

-- `_aware_datetime`
aware_datetime : TimeArgument → String → Result ℤ
unfolding refuse
aware_datetime no_datetime name = refuse type_error (name ++ " must be datetime.datetime")
aware_datetime naive name = refuse value_error (name ++ " must include timezone information")
aware_datetime (at us) name = ok us

from_epoch : String → ℤ → Result ℤ
unfolding refuse
from_epoch name us =
    if not (is_whole us)
    then refuse value_error (name ++ " must use whole milliseconds")
    else if ltb_ℤ (thousandth us) (pos 0)
    then refuse value_error (name ++ " must be at or after the Unix epoch")
    else ok (thousandth us)

-- `_datetime_ms`
unfoldable pub datetime_ms : TimeArgument → String → Result ℤ
unfolding aware_datetime from_epoch
datetime_ms value name = aware_datetime value name >>= from_epoch name

-- The first and the last millisecond that a `datetime` has.
abbrev pub first_ms : ℤ
first_ms = negsuc 62_135_596_799_999

abbrev pub last_ms : ℤ
last_ms = pos 253_402_300_799_999

abbrev times_1000 : ℤ → ℤ
times_1000 (pos n) = pos (n * 1000)
times_1000 (negsuc n) = negsuc (suc n * 1000 - 1)

-- `_datetime_from_ms`, which Python refuses where the year is not from 1 to 9999.
unfoldable pub datetime_from_ms : ℤ → Result ℤ
datetime_from_ms value =
    if ltb_ℤ value first_ms || ltb_ℤ last_ms value
    then err (foreign "OverflowError")
    else ok (times_1000 value)

-- What is handed over for a timeout, and what `_timeout` makes of it.
pub data TimeoutArgument : Type 0 where
  no_timeout : TimeoutArgument
  no_number : TimeoutArgument
  infinite_or_nan : TimeoutArgument
  finite : ℤ → TimeoutArgument

unfoldable pub timeout : TimeoutArgument → String → Result (Option ℤ)
unfolding refuse
timeout no_timeout name = ok none
timeout no_number name = refuse type_error (name ++ " must be float or None")
timeout infinite_or_nan name = refuse value_error (name ++ " must be finite and positive")
timeout (finite t) name =
    if leb_ℤ t (pos 0)
    then refuse value_error (name ++ " must be finite and positive")
    else ok (some t)
