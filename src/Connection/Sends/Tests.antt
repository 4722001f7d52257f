-- ===== src/Connection/Sends/Tests.antt =====
-- A message of a second, and a timestamp that does not fit.
use tirtc_client_python.Prelude.{ℕ, ◌+◌, ◌≡◌, refl}
use tirtc_client_python.Prelude.Int.{ℤ, pos}
use tirtc_client_python.Errors.Action.{ok, err, builtin, value_error}
use tirtc_client_python.Objects.{int}
use tirtc_client_python.Lifecycle.{new, require_open, require_status}
use tirtc_client_python.Util.Validate.{timedelta_ms}
use tirtc_client_python.Calls.{require_process, checked, expect_zero}
use tirtc_client_python.Calls.Closing.{Closable}
use tirtc_client_python.Calls.Sample.{base}
use tirtc_client_python.Connection.Sends.{send_stream_message, native_operation}
use tirtc_client_python.Connection.Sends.Arguments.{Message, Sent, send_stream_message-Sent}

abbrev opened_at : ℕ → Closable (Unit {0}) ℕ
opened_at n = record { coordinator = new; object = record { self = tt; world = n } }

-- The world counts the milliseconds that were sent.
abbrev counts : ℤ → ℤ → ℕ → ℕ → ℤ × ℕ
counts id (pos ms) p n = (pos 0, n + ms)
counts id ms p n = (pos 1, n)

a_second :
    send_stream_message base counts (int (pos 3)) (timedelta_ms 1000) (ok 8) (opened_at 0)
    ≡ (ok tt, opened_at 1000)
unfolding send_stream_message native_operation require_process checked expect_zero new require_open
    require_status
a_second = refl

too_long :
    (send_stream_message base counts
      (int (pos 3))
      (timedelta_ms 4_294_967_296)
      (ok 8)
      (opened_at 0)).0
    ≡ err (builtin value_error "timestamp is outside the supported range")
unfolding send_stream_message
too_long = refl

send_stream_message-Sent_example :
    (m : Message (int (pos 3)) (timedelta_ms 1000) (ok 8)) × Sent
      (counts m.id m.ms m.block)
      (opened_at 0)
      (opened_at 1000)
unfolding send_stream_message native_operation require_process checked expect_zero new require_open
    require_status
send_stream_message-Sent_example =
    send_stream_message-Sent base counts (int (pos 3)) (timedelta_ms 1000) (ok 8) (opened_at 0) tt
      (opened_at 1000) refl
