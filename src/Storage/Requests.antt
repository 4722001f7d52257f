-- ===== src/Storage/Requests.antt =====
-- src/tirtc/storage/__init__.py: `_ListRequest`. Every section is one function; the events are truth
-- values, and a wait for one is a test that has to hold.
mod System
mod Once
mod Tests
use tirtc_client_python.Prelude.{
  Bool, true, false, not, ◌||◌, ◌&&◌, Option, none, some, if◌then◌else◌,
}

pub record Request : Type 0 where
  pub handle : Bool
  pub completed : Bool
  pub started : Bool
  pub finished : Bool
  pub cancel_started : Bool
  pub cancel_finished : Bool

unfoldable pub new_request : Request
new_request = record {
  handle = false;
  completed = false;
  started = false;
  finished = false;
  cancel_started = false;
  cancel_finished = false;
}

-- `on_completed("completed")`
unfoldable pub on_completed : Request → Request
on_completed r = record r { completed = true }

unfoldable pub set_handle : Bool → Request → Request
set_handle handle r = record r { handle = handle; started = true }

-- What `cancel` goes on to do: nothing, wait for the other cancel, or cancel in native code.
pub data RequestCancel : Type 0 where
  nothing join perform : RequestCancel

-- The section of `cancel` under the lock.
unfoldable pub request_cancel_begin : Request → Request × RequestCancel
request_cancel_begin r =
    if not r.handle || r.completed
    then (r, nothing)
    else if r.cancel_started
    then (r, join)
    else (record r { cancel_started = true }, perform)

-- The `finally` of the native cancel.
unfoldable pub request_cancel_end : Request → Request
request_cancel_end r = record r { cancel_finished = true }

-- `state.finished.set()`
unfoldable pub finish_request : Request → Request
finish_request r = record r { finished = true }

-- What the waits of `cancel` and of `cancel_and_wait` look at.
unfoldable pub cancel_may_start : Request → Bool
cancel_may_start r = r.started

unfoldable pub join_passes : Request → Bool
join_passes r = r.cancel_finished

unfoldable pub wait_passes : Request → Bool
wait_passes r = r.finished
