-- ===== src/Util/Moments/Bounds.antt =====
-- A moment that is accepted is the number of its milliseconds, and comes back from it.
use tirtc_client_python.Prelude.{ℕ, ◌*◌, ◌/◌, ◌<◌, ◌≡◌, String, arith, ap}
use tirtc_client_python.Prelude.Int.{ℤ, pos, negsuc}
use tirtc_client_python.Errors.Action.{ok}
use tirtc_client_python.Util.Validate.{refuse}
use tirtc_client_python.Util.Moments.{
  TimeArgument, at, no_datetime, naive, aware_datetime, from_epoch, datetime_ms, datetime_from_ms,
}

accepted :
    (us : ℕ) (name : String) (n : ℤ)
    → from_epoch name (pos us) ≡ ok n
    → (k : ℕ) × (n ≡ pos k) × (at (pos us) ≡ at (pos (k * 1000)))
unfolding from_epoch refuse
accepted us name n h = (us / 1000, ground arith, ap (λ k. at (pos k)) (ground arith))

-- A moment is accepted only where it has a time zone, is a whole number of milliseconds and is not
-- before the Unix epoch; the number of milliseconds is then exact.
pub datetime_ms-exact :
    (value : TimeArgument) (name : String) (n : ℤ)
    → datetime_ms value name ≡ ok n
    → (k : ℕ) × (n ≡ pos k) × (value ≡ at (pos (k * 1000)))
unfolding datetime_ms aware_datetime from_epoch refuse
datetime_ms-exact no_datetime name n h = ground arith
datetime_ms-exact naive name n h = ground arith
datetime_ms-exact (at (pos us)) name n h = accepted us name n h
datetime_ms-exact (at (negsuc us)) name n h = ground arith

-- A moment that is made from a number of milliseconds, at or after the epoch and within the years
-- that Python has, is accepted and gives the same number back.
pub datetime_ms-datetime_from_ms :
    (name : String) (k : ℕ)
    → k < 253_402_300_800_000
    → datetime_from_ms (pos k) ≡ ok (pos (k * 1000))
      × datetime_ms (at (pos (k * 1000))) name ≡ ok (pos k)
unfolding datetime_ms aware_datetime from_epoch datetime_from_ms
datetime_ms-datetime_from_ms name k small = (ground arith, ground arith)
