-- ===== src/Storage/Cloud/Lists/Tests.antt =====
-- A listing that times out.
use tirtc_client_python.Prelude.{ℕ, ◌≡◌, refl, false, [], ◌∷◌}
use tirtc_client_python.Prelude.Int.{pos}
use tirtc_client_python.Errors.{timeout_error}
use tirtc_client_python.Errors.Action.{sdk, err}
use tirtc_client_python.Lifecycle.{new, require_open}
use tirtc_client_python.Util.Retry.{retry_in_use_result}
use tirtc_client_python.Util.Moments.{finite}
use tirtc_client_python.Runtime.{access_key}
use tirtc_client_python.Calls.Closing.{Closable}
use tirtc_client_python.Calls.Sample.{base, succeeds_now}
use tirtc_client_python.Storage.Cloud.{Cloud, prepared_cloud}
use tirtc_client_python.Storage.Cloud.Lists.{Listing, list_rows}
use tirtc_client_python.Storage.Cloud.Lists.Restored.{list_rows-SameRequests}

abbrev native : Listing ℕ ℕ
native = record {
  base = base;
  list_start = succeeds_now;
  in_time = λ deadline n. (false, n);
  completed = λ n. false;
  request_cancel = succeeds_now;
  until_completed = λ n. n;
  request_result = λ n. ((pos 0, 7 ∷ []), n);
  close_request = succeeds_now;
}

abbrev cloud : Closable Cloud ℕ
unfolding new prepared_cloud
cloud = record {
  coordinator = new;
  object = record { self = prepared_cloud access_key; world = 0 };
}

times_out : (list_rows native 1 (finite (pos 5)) cloud).0 ≡ err (sdk timeout_error)
unfolding list_rows cloud retry_in_use_result require_open
times_out = refl

list_rows-SameRequests_example :
    (list_rows native 1 (finite (pos 5)) cloud).1.object.self.requests ≡ cloud.object.self.requests
list_rows-SameRequests_example = list_rows-SameRequests native 1 (finite (pos 5)) cloud
