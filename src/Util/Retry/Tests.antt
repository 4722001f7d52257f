-- ===== src/Util/Retry/Tests.antt =====
-- A call that is busy twice, with the theorems at it. The state is the clock's reading.
use tirtc_client_python.Prelude.{ℕ, ◌+◌, ◌≤◌, ◌≡◌, refl, some, arith, ltb, if◌then◌else◌}
use tirtc_client_python.Prelude.Int.{ℤ, pos}
use tirtc_client_python.Errors.{timeout_error}
use tirtc_client_python.Errors.Action.{sdk, ok, err}
use tirtc_client_python.Util.Retry.{Clock, in_use_code, retry_in_use_result, close_handle_code}
use tirtc_client_python.Util.Retry.Totality.{IsClock, Ends, retry_in_use_result-Ends}

abbrev wall : Clock ℕ
wall = record { now = λ n. n; sleep = λ k n. n + k }

abbrev wall_law : IsClock wall
wall_law = record { sleeps = λ k n. omega arith }

-- In use until the clock shows 2500.
abbrev busy : ℕ → ℤ × ℕ
busy n = (if ltb n 2500 then in_use_code else pos 0, n)

forward : (n : ℕ) → n ≤ (busy n).1
forward n = omega arith

retry_waits : retry_in_use_result wall (λ c. c) busy 5_000_000 0 ≡ some (ok (pos 0), 3000)
unfolding retry_in_use_result
retry_waits = refl

retry_times_out :
    retry_in_use_result wall (λ c. c) busy 1500 0 ≡ some (err (sdk timeout_error), 1500)
unfolding retry_in_use_result
retry_times_out = refl

close_waits : close_handle_code wall busy 0 ≡ some (pos 0, 5000)
unfolding close_handle_code
close_waits = refl

retry_in_use_result-Ends_example :
    Ends wall (λ c. c) 5_000_000 (retry_in_use_result wall (λ c. c) busy 5_000_000 0)
retry_in_use_result-Ends_example =
    retry_in_use_result-Ends wall wall_law (λ c. c) busy forward 5_000_000 0
