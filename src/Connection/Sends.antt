-- ===== src/Connection/Sends.antt =====
-- src/tirtc/_core.py: the calls of a Connection that check their arguments and go to native code,
-- `send_command`, `send_stream_message`, and those that subscribe. A payload is what `_buffer` comes to,
-- a block of memory known by a number.
mod Arguments
mod Tests
use tirtc_client_python.Prelude.{ℕ, ◌||◌}
use tirtc_client_python.Prelude.Int.{ℤ, pos, ltb_ℤ}
use tirtc_client_python.Errors.Action.{
  builtin, value_error, Result, Action, lift, raise_if, ◌>>=◌, ◌>>◌,
}
use tirtc_client_python.Objects.{Object}
use tirtc_client_python.Util.Validate.{integer, stream_id, duration_ms}
use tirtc_client_python.Calls.{Sdk, require_process, checked}
use tirtc_client_python.Calls.Closing.{Closable, opened, free}

module _ {S N : Type 0} (native : Sdk N) where
  -- `_native_operation`
  unfoldable pub native_operation : (N → ℤ × N) → Action (Closable S N) (Unit {0})
  unfolding require_process checked
  native_operation f = free (require_process native) >> opened (checked native f)

  module _ (conn_send_command : ℤ → ℕ → N → ℤ × N) where
    command_at : ℤ → Result ℕ → Action (Closable S N) (Unit {0})
    unfolding native_operation
    command_at id payload = lift payload >>= λ p. native_operation (conn_send_command id p)

    unfoldable pub send_command : Object → Result ℕ → Action (Closable S N) (Unit {0})
    unfolding integer command_at
    send_command command_id payload =
        lift (integer command_id "command_id" (pos 8193) (pos 4_294_967_295)) >>= λ id.
        command_at id payload

  module _ (conn_send_message : ℤ → ℤ → ℕ → N → ℤ × N) where
    message_in_range : ℤ → ℤ → Result ℕ → Action (Closable S N) (Unit {0})
    unfolding native_operation
    message_in_range id ms payload =
        raise_if (ltb_ℤ ms (pos 0) || ltb_ℤ (pos 4_294_967_295) ms)
          (builtin value_error "timestamp is outside the supported range")
        >> lift payload
        >>= λ p. native_operation (conn_send_message id ms p)

    message_at : ℤ → Object → Result ℕ → Action (Closable S N) (Unit {0})
    unfolding duration_ms message_in_range
    message_at id timestamp payload =
        lift (duration_ms timestamp "timestamp") >>= λ ms. message_in_range id ms payload

    unfoldable pub send_stream_message :
        Object → Object → Result ℕ → Action (Closable S N) (Unit {0})
    unfolding stream_id message_at
    send_stream_message stream timestamp payload =
        lift (stream_id stream "stream_id") >>= λ id. message_at id timestamp payload

  -- `subscribe_audio`, `unsubscribe_audio`, `subscribe_video`, `unsubscribe_video` and
  -- `request_video_keyframe`, by their native call.
  unfoldable pub on_stream : (ℤ → N → ℤ × N) → Object → Action (Closable S N) (Unit {0})
  unfolding stream_id native_operation
  on_stream f stream = lift (stream_id stream "stream_id") >>= λ id. native_operation (f id)
