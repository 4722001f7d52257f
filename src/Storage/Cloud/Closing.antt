-- ===== src/Storage/Cloud/Closing.antt =====
-- A close of a cloud that returned has closed it, and no close opens it again.
use tirtc_client_python.Prelude.{◌≡◌, ap, ◌∙◌, Bool, true, false}
use tirtc_client_python.Errors.{in_use_error}
use tirtc_client_python.Errors.Action.{sdk, Result, ok, err, Action}
use tirtc_client_python.Lifecycle.{closed}
use tirtc_client_python.Calls.Closing.{Closable, Ended, returned, closing}
use tirtc_client_python.Calls.Closing.Results.{closing-Returned, closing_again}
use tirtc_client_python.Calls.Closing.Guards.{passed, guarded-passed, guarded-ok}
use tirtc_client_python.Storage.Cloud.{
  Cloud, Native, cloud_process, close_cloud, close_cloud_body, finish_cloud, cloud_result,
}

module _ {N : Type 0} (native : Native N) where
  abbrev Closes : Action (Closable Cloud N) (Ended (Unit {0}))
  Closes = closing (finish_cloud native) (cloud_result native) (close_cloud_body native)

  pub close_cloud-closed :
      (blocking : Bool) (s : Closable Cloud N) (u : Unit {0}) (t : Closable Cloud N)
      → close_cloud native blocking s ≡ (ok (returned u), t)
      → t.coordinator.status ≡ closed
  unfolding close_cloud cloud_process
  close_cloud-closed blocking s u t h =
      (closing-Returned (finish_cloud native) (cloud_result native) (close_cloud_body native) s u t
        (guarded-ok native.base blocking (sdk in_use_error) Closes s (returned u) t h)).is_closed

  passed_stays :
      (r : Result (Unit {0})) (blocking : Bool) (s : Closable Cloud N)
      → s.coordinator.status ≡ closed
      → (passed native.base r blocking (sdk in_use_error) Closes s).1.coordinator.status ≡ closed
  passed_stays (err e) blocking s h = h
  passed_stays (ok u) true s h = h
  passed_stays (ok u) false s h =
      ap (λ (x : Result (Ended (Unit {0})) × Closable Cloud N). x.1.coordinator.status)
        (closing_again (finish_cloud native) (cloud_result native) (close_cloud_body native) s h)
      ∙ h

  pub close_cloud-stays :
      (blocking : Bool) (s : Closable Cloud N)
      → s.coordinator.status ≡ closed
      → (close_cloud native blocking s).1.coordinator.status ≡ closed
  unfolding close_cloud cloud_process
  close_cloud-stays blocking s h =
      ap (λ (x : Result (Ended (Unit {0})) × Closable Cloud N). x.1.coordinator.status)
        (guarded-passed native.base blocking (sdk in_use_error) Closes s)
      ∙ passed_stays (native.base.process s.object.world) blocking s h
