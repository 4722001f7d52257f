-- ===== src/Util/Retry.antt =====
-- src/tirtc/_util.py, `_retry_in_use_result` and `_retry_in_use`, and the loop of `_close_handle`
-- in src/tirtc/_runtime.py. `N` is the state of the world outside: native code, and the clock.
-- Times are in microseconds; `_retry_in_use` waits 1000, then twice as long, up to 20000.
pub mod Attempts
mod Totality
mod Tests
use tirtc_client_python.Prelude.{
  ℕ, zero, suc, ◌+◌, ◌-◌, ◌*◌, ◌/◌, Bool, Option, none, some, if◌then◌else◌, leb, min, not,
}
use tirtc_client_python.Prelude.Int.{ℤ, pos, eqb_ℤ}
use tirtc_client_python.Errors.{timeout_error}
use tirtc_client_python.Errors.Action.{Exception, sdk, foreign, Result, ok, err}

-- `time.monotonic` and `time.sleep`.
pub record Clock (N : Type 0) : Type 0 where
  pub now : N → ℕ
  pub sleep : ℕ → N → N

abbrev pub in_use_code : ℤ
in_use_code = pos 6026

abbrev pub first_delay : ℕ
first_delay = 1000

abbrev pub longest_delay : ℕ
longest_delay = 20_000

-- What a loop has come to: a result with the world after it, or `none` where the fuel ran out.
abbrev pub Run : Type 0 → Type 0 → Type 0
Run N A = Option (Result A × N)

module _ {N A : Type 0} (clock : Clock N) (code_of : A → ℤ) (operation : N → A × N) where
  -- The `while True` of `_retry_in_use_result`, a round for each unit of fuel.
  pub retry_loop : ℕ → ℕ → ℕ → N → Run N A
  retry_loop zero deadline delay n = none
  retry_loop (suc fuel) deadline delay n =
      let (result, n') = operation n in
      let remaining = deadline - clock.now n' in
      let again =
        retry_loop fuel deadline (min (delay * 2) longest_delay)
          (clock.sleep (min delay remaining) n') in
      if not (eqb_ℤ (code_of result) in_use_code)
      then some (ok result, n')
      else if leb deadline (clock.now n')
      then some (err (sdk timeout_error), n')
      else again

  -- `_retry_in_use_result`: the rounds that the shortest delay leaves time for, and one more.
  unfoldable pub retry_in_use_result : ℕ → N → Run N A
  unfolding retry_loop
  retry_in_use_result timeout n =
      retry_loop (timeout / first_delay + 2) (clock.now n + timeout) first_delay n

-- `_close_handle` waits 5000 between its attempts, until 5000000 have gone by.
module _ {N : Type 0} (clock : Clock N) (close : N → ℤ × N) where
  pub close_loop : ℕ → ℕ → N → Option (ℤ × N)
  close_loop zero deadline n = none
  close_loop (suc fuel) deadline n =
      let (code, n') = close n in
      let again = close_loop fuel deadline (clock.sleep 5000 n') in
      if not (eqb_ℤ code in_use_code)
      then some (code, n')
      else if leb deadline (clock.now n')
      then some (code, n')
      else again

  unfoldable pub close_handle_code : N → Option (ℤ × N)
  unfolding close_loop
  close_handle_code n = close_loop 1002 (clock.now n + 5_000_000) n
