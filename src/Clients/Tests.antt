-- ===== src/Clients/Tests.antt =====
-- A client with two clouds, one of which has a replay that closes with an error.
use tirtc_client_python.Prelude.{ℕ, ◌≢◌, refl, false, true, [], ◌∷◌, ◌==◌, if◌then◌else◌, arith}
use tirtc_client_python.Errors.Action.{foreign, ok, err}
use tirtc_client_python.Lifecycle.{new, begin, succeed, closed}
use tirtc_client_python.Runtime.{external_token}
use tirtc_client_python.Util.Retry.{retry_in_use_result}
use tirtc_client_python.Calls.{Sdk}
use tirtc_client_python.Calls.Closing.{Closable}
use tirtc_client_python.Calls.Sample.{base, named, succeeds_now, returns_now}
use tirtc_client_python.Children.Closed.{AllClosed}
use tirtc_client_python.Storage.Cloud.{Native, prepared_cloud, close_cloud}
use tirtc_client_python.Clients.{Client, close_client}
use tirtc_client_python.Clients.Clouds.{
  Clouds, cloud_children, lease_closes, close_client-AllClosed,
}

abbrev native : Native ℕ
native = record {
  base = base;
  storage_update_token = λ token. succeeds_now;
  replay_create = λ progress gap. succeeds_now;
  export_create = λ start end video audio progress gap. succeeds_now;
  close = succeeds_now;
  replays = record { close_child = λ c n. (err (foreign "replay"), n); child_closed = λ c n. true };
  close_export = λ c. returns_now;
  cancel_request = λ c. returns_now;
}

abbrev around : Sdk (Clouds ℕ)
around = record {
  clock = record { now = λ n. 0; sleep = λ k n. n };
  code_error = named;
  process = λ n. ok tt;
}

abbrev two_clouds : Clouds ℕ
unfolding new prepared_cloud
two_clouds = record {
  coordinators = λ c. new;
  clouds = λ c. record (prepared_cloud external_token) { replays = if c == 1 then 5 ∷ [] else [] };
  outside = 0;
}

abbrev client : Closable Client (Clouds ℕ)
unfolding new
client = record {
  coordinator = new;
  object = record {
    self = record { mode = external_token; children = 1 ∷ 2 ∷ [] };
    world = two_clouds;
  };
}

client_live : client.coordinator.status ≢ closed
unfolding client
client_live h = ground (arith, h)

close_client-AllClosed_example :
    AllClosed
      (cloud_children native)
      (1 ∷ 2 ∷ [])
      (close_client around
        (cloud_children native)
        (lease_closes returns_now)
        false
        client).1.object.world
unfolding close_client begin client succeed close_cloud cloud_children retry_in_use_result
    two_clouds
close_client-AllClosed_example =
    close_client-AllClosed around native returns_now false client client_live refl
