-- ===== src/Storage/Requests/Once.antt =====
-- A request is cancelled in native code once, and whoever joins that cancel goes on after it.
use tirtc_client_python.Prelude.{ℕ, ◌≤◌, ◌≡◌, ◌⊎◌, inl, inr, refl, Bool, true, if◌then◌else◌, arith}
use tirtc_client_python.Storage.Requests.{
  new_request, on_completed, set_handle, request_cancel_begin, request_cancel_end, finish_request,
  join_passes,
}
use tirtc_client_python.Storage.Requests.System.{
  System, Step, starts, completes, cancel_nothing, cancel_joins, cancel_performs, cancel_returns,
  join_returns, finishes, Reach, start, next,
}

abbrev as_number : Bool → ℕ
as_number b = if b then 1 else 0

-- One native cancel at most, which has begun just where `_cancel_started` is set and has come back
-- just where `_cancel_finished` is; and nobody joins or goes on before.
pub record IsOnce (s : System) : Type 0 where
  pub begun : s.performed ≡ as_number s.request.cancel_started
  pub ended : s.ended ≡ as_number s.request.cancel_finished
  pub in_order : s.ended ≤ s.performed
  pub joined : (s.joined ≡ 0) ⊎ (s.request.cancel_started ≡ true)
  pub left : (s.left ≡ 0) ⊎ (s.request.cancel_finished ≡ true)

step-IsOnce : {s t : System} → Step s t → IsOnce s → IsOnce t
unfolding on_completed set_handle request_cancel_begin request_cancel_end finish_request join_passes
step-IsOnce (starts handle fresh) h = record {
  begun = h.begun;
  ended = h.ended;
  in_order = h.in_order;
  joined = h.joined;
  left = h.left;
}
step-IsOnce completes h = record {
  begun = h.begun;
  ended = h.ended;
  in_order = h.in_order;
  joined = h.joined;
  left = h.left;
}
step-IsOnce (cancel_nothing may kind) h = record {
  begun = ground (arith, kind, h.begun);
  ended = ground (arith, kind, h.ended);
  in_order = ground (arith, kind, h.in_order);
  joined = ground (arith, kind, h.joined);
  left = ground (arith, kind, h.left);
}
step-IsOnce (cancel_joins may kind) h = record {
  begun = ground (arith, kind, h.begun);
  ended = ground (arith, kind, h.ended);
  in_order = ground (arith, kind, h.in_order);
  joined = inr (ground (arith, kind));
  left = ground (arith, kind, h.left);
}
step-IsOnce (cancel_performs may kind) h = record {
  begun = ground (arith, kind, h.begun);
  ended = ground (arith, kind, h.ended);
  in_order = ground (arith, kind, h.in_order);
  joined = ground (arith, kind, h.joined);
  left = ground (arith, kind, h.left);
}
step-IsOnce (cancel_returns n open_) h = record {
  begun = h.begun;
  ended = ground (arith, open_, h.begun, h.ended);
  in_order = ground (arith, open_);
  joined = h.joined;
  left = inr refl;
}
step-IsOnce (join_returns n open_ passes) h = record {
  begun = h.begun;
  ended = h.ended;
  in_order = h.in_order;
  joined = h.joined;
  left = inr passes;
}
step-IsOnce finishes h = record {
  begun = h.begun;
  ended = h.ended;
  in_order = h.in_order;
  joined = h.joined;
  left = h.left;
}

-- However the threads that list and cancel and native code interleave, `request_cancel` is called for
-- a request once at most, and a thread that joined goes on only when that call has come back.
pub cancelled-IsOnce : (s : System) → Reach s → IsOnce s
unfolding new_request
cancelled-IsOnce s start = record {
  begun = refl;
  ended = refl;
  in_order = omega arith;
  joined = inl refl;
  left = inl refl;
}
cancelled-IsOnce t (next {s} reach step) = step-IsOnce step (cancelled-IsOnce s reach)
