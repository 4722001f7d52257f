-- ===== src/Storage/Requests/Tests.antt =====
-- A request that is started and cancelled by two threads.
use tirtc_client_python.Prelude.{refl, true}
use tirtc_client_python.Storage.Requests.{
  set_handle, request_cancel_begin, new_request, cancel_may_start,
}
use tirtc_client_python.Storage.Requests.System.{
  System, Reach, start, next, starts, cancel_performs, cancel_joins,
}
use tirtc_client_python.Storage.Requests.Once.{IsOnce, cancelled-IsOnce}

abbrev both_cancelled : System
unfolding new_request set_handle request_cancel_begin
both_cancelled = record {
  request = (request_cancel_begin (request_cancel_begin (set_handle true new_request)).0).0;
  performed = 1;
  ended = 0;
  joined = 1;
  left = 0;
}

both_cancelled-Reach : Reach both_cancelled
unfolding new_request set_handle request_cancel_begin cancel_may_start
both_cancelled-Reach =
    next (next (next start (starts true refl)) (cancel_performs refl refl)) (cancel_joins refl refl)

cancelled-IsOnce_example : IsOnce both_cancelled
cancelled-IsOnce_example = cancelled-IsOnce both_cancelled both_cancelled-Reach
