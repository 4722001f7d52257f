-- ===== src/Util/Validate/Tests.antt =====
-- Values at the bounds, with the theorems at them.
use tirtc_client_python.Prelude.{◌≡◌, refl, true}
use tirtc_client_python.Prelude.Int.{pos, negsuc, ◌≤ℤ◌}
use tirtc_client_python.Objects.{bool, int, timedelta}
use tirtc_client_python.Errors.Action.{builtin, type_error, value_error, ok, err}
use tirtc_client_python.Util.Validate.{integer, stream_id, channel_id, duration_ms}
use tirtc_client_python.Util.Validate.Bounds.{integer-bounds}

stream : stream_id (int (pos 15)) "stream_id" ≡ ok (pos 15)
unfolding stream_id
stream = refl

channel :
    channel_id (int (pos 256)) "channel_id"
    ≡ err (builtin value_error "channel_id must be between 0 and 255")
unfolding channel_id
channel = refl

truth : stream_id (bool true) "stream_id" ≡ err (builtin type_error "stream_id must be int")
unfolding stream_id
truth = refl

-- A second before zero: minus one day, and 86399 seconds.
negative : duration_ms (timedelta (negsuc 0) 86_399 0) "offset" ≡ ok (negsuc 999)
unfolding duration_ms
negative = refl

integer-bounds_example : (int (pos 7) ≡ int (pos 7)) × (pos 0 ≤ℤ pos 7) × (pos 7 ≤ℤ pos 15)
unfolding integer
integer-bounds_example = integer-bounds (int (pos 7)) "stream_id" (pos 0) (pos 15) (pos 7) refl
