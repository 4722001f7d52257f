-- ===== src/Storage/Requests/System.antt =====
-- A list request in use: the thread that lists, native code, and any number of threads that cancel.
use tirtc_client_python.Prelude.{ℕ, suc, ◌+◌, ◌≡◌, Bool, true, false}
use tirtc_client_python.Storage.Requests.{
  Request, new_request, on_completed, set_handle, request_cancel_begin, request_cancel_end,
  finish_request, cancel_may_start, join_passes, nothing, join, perform,
}

-- `performed` counts the native cancels that were begun, `ended` those that came back, `joined` the
-- threads that wait for one, and `left` those of them that went on.
pub record System : Type 0 where
  pub request : Request
  pub performed : ℕ
  pub ended : ℕ
  pub joined : ℕ
  pub left : ℕ

abbrev pub begun : System
begun = record { request = new_request; performed = 0; ended = 0; joined = 0; left = 0 }

pub data Step (s : System) : System → Type 0 where
  starts :
      (handle : Bool)
      → s.request.started ≡ false
      → Step s (record s { request = set_handle handle s.request })
  completes : Step s (record s { request = on_completed s.request })
  cancel_nothing :
      cancel_may_start s.request ≡ true
      → (request_cancel_begin s.request).1 ≡ nothing
      → Step s (record s { request = (request_cancel_begin s.request).0 })
  cancel_joins :
      cancel_may_start s.request ≡ true
      → (request_cancel_begin s.request).1 ≡ join
      → Step s (record s { request = (request_cancel_begin s.request).0; joined = suc s.joined })
  cancel_performs :
      cancel_may_start s.request ≡ true
      → (request_cancel_begin s.request).1 ≡ perform
      → Step s
          (record s { request = (request_cancel_begin s.request).0; performed = suc s.performed })
  cancel_returns :
      (n : ℕ)
      → s.performed ≡ s.ended + suc n
      → Step s (record s { request = request_cancel_end s.request; ended = suc s.ended })
  join_returns :
      (n : ℕ)
      → s.joined ≡ s.left + suc n
      → join_passes s.request ≡ true
      → Step s (record s { left = suc s.left })
  finishes : Step s (record s { request = finish_request s.request })

pub data Reach : System → Type 0 where
  start : Reach begun
  next : {s t : System} → Reach s → Step s t → Reach t
