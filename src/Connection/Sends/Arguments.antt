-- ===== src/Connection/Sends/Arguments.antt =====
-- What a call that returned has let through to native code.
use tirtc_client_python.Prelude.{ℕ, ◌≡◌, ap, sym, subst, ◌∙◌, false, ◌||◌}
use tirtc_client_python.Prelude.Int.{ℤ, pos, ltb_ℤ, ◌≤ℤ◌}
use tirtc_client_python.Errors.Action.{
  builtin, value_error, Result, ok, Action, lift, raise_if, ◌>>◌,
}
use tirtc_client_python.Errors.Inversion.{bind-returned, raise_if-returned, lift-returned}
use tirtc_client_python.Lifecycle.{open_}
use tirtc_client_python.Objects.{Object, int}
use tirtc_client_python.Util.Validate.{stream_id, duration_ms}
use tirtc_client_python.Util.Validate.Bounds.{integer-bounds, neither, ge_of_ltb}
use tirtc_client_python.Calls.{Sdk, require_process, checked}
use tirtc_client_python.Calls.Closing.{Closable, opened, free}
use tirtc_client_python.Calls.Returned.{opened-Opened, checked-returned}
use tirtc_client_python.Connection.Sends.{
  native_operation, message_in_range, message_at, send_stream_message,
}

-- The object was open, the native call gave the code zero, and nothing else changed.
pub record Sent {S N : Type 0} (f : N → ℤ × N) (s t : Closable S N) : Type 0 where
  pub was_open : s.coordinator.status ≡ open_
  pub called : f s.object.world ≡ (pos 0, t.object.world)
  pub self : t.object.self ≡ s.object.self
  pub coordinator : t.coordinator ≡ s.coordinator

-- The arguments that a message is sent with.
pub record Message (stream timestamp : Object) (payload : Result ℕ) : Type 0 where
  pub id : ℤ
  pub ms : ℤ
  pub block : ℕ
  pub stream_is : stream ≡ int id
  pub stream_bounds : (pos 0 ≤ℤ id) × (id ≤ℤ pos 15)
  pub time_is : duration_ms timestamp "timestamp" ≡ ok ms
  pub time_bounds : (pos 0 ≤ℤ ms) × (ms ≤ℤ pos 4_294_967_295)
  pub payload_is : payload ≡ ok block

within_32 :
    (ms : ℤ)
    → (ltb_ℤ ms (pos 0) || ltb_ℤ (pos 4_294_967_295) ms) ≡ false
    → (pos 0 ≤ℤ ms) × (ms ≤ℤ pos 4_294_967_295)
within_32 ms h = let (low, high) = neither _ _ h in (ge_of_ltb _ _ low, ge_of_ltb _ _ high)

module _ {S N : Type 0} (native : Sdk N) where
  native_operation-Sent :
      (f : N → ℤ × N) (s : Closable S N) (u : Unit {0}) (t : Closable S N)
      → native_operation native f s ≡ (ok u, t)
      → Sent f s t
  unfolding native_operation require_process
  native_operation-Sent f s u t h =
      let (v, s1, h1, h2) =
        bind-returned (free (require_process native)) (λ _. opened (checked native f)) s u t h in
      subst (λ r. Sent f r t) (sym (ap (λ p. p.1) h1))
        (let o = opened-Opened (checked native f) s1 u t h2 in
          let (called, same) = checked-returned native f s1.object u t.object o.object in
          record {
            was_open = o.was_open;
            called = called;
            self = same;
            coordinator = o.coordinator;
          })

  -- A `send_stream_message` that returned was called on an open connection, with a stream id from 0
  -- to 15 and a timestamp of whole milliseconds that fits in 32 bits, and has handed these and the
  -- payload to native code once, which gave the code zero; nothing else of the world or the
  -- connection is changed.
  pub send_stream_message-Sent :
      (conn_send_message : ℤ → ℤ → ℕ → N → ℤ × N) (stream timestamp : Object) (payload : Result ℕ)
      (s : Closable S N) (u : Unit {0}) (t : Closable S N)
      → send_stream_message native conn_send_message stream timestamp payload s ≡ (ok u, t)
      → (m : Message stream timestamp payload) × Sent (conn_send_message m.id m.ms m.block) s t
  unfolding send_stream_message message_at message_in_range stream_id
  send_stream_message-Sent conn_send_message stream timestamp payload s u t h =
      let (id, s1, h1, r1) =
        bind-returned (lift (stream_id stream "stream_id"))
          (λ id. message_at native conn_send_message id timestamp payload) s u t h in
      let (ms, s2, h2, r2) =
        bind-returned (lift (duration_ms timestamp "timestamp"))
          (λ ms. message_in_range native conn_send_message id ms payload) s1 u t r1 in
      let early : Action (Closable S N) ℕ =
        raise_if (ltb_ℤ ms (pos 0) || ltb_ℤ (pos 4_294_967_295) ms)
          (builtin value_error "timestamp is outside the supported range")
        >> lift payload in
      let (block, s3, h3, r3) =
        bind-returned early (λ p. native_operation native (conn_send_message id ms p)) s2 u t r2 in
      let (v, s4, h4, h5) =
        bind-returned (raise_if (ltb_ℤ ms (pos 0) || ltb_ℤ (pos 4_294_967_295) ms) _)
          (λ _. lift payload) s2 block s3 h3 in
      let (id_ok, same1) = lift-returned (stream_id stream "stream_id") s id s1 h1 in
      let (ms_ok, same2) = lift-returned (duration_ms timestamp "timestamp") s1 ms s2 h2 in
      let (in_range, same3) = raise_if-returned _ _ s2 v s4 h4 in
      let (block_ok, same4) = lift-returned payload s4 block s3 h5 in
      let bounds = integer-bounds stream "stream_id" (pos 0) (pos 15) id id_ok in
      (
        record {
          id = id;
          ms = ms;
          block = block;
          stream_is = bounds.0;
          stream_bounds = (bounds.1, bounds.2);
          time_is = ms_ok;
          time_bounds = within_32 ms in_range;
          payload_is = block_ok;
        },
        subst (λ r. Sent (conn_send_message id ms block) r t) (sym (same1 ∙ same2 ∙ same3 ∙ same4))
            (native_operation-Sent (conn_send_message id ms block) s3 u t r3),
      )
