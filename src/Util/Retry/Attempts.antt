-- ===== src/Util/Retry/Attempts.antt =====
-- A result of the loop is that of one of its attempts.
use tirtc_client_python.Prelude.{
  ℕ, zero, suc, ◌-◌, ◌*◌, ◌/◌, ◌+◌, ◌≡◌, if-cases, refl, none, some, leb, min, not,
}
use tirtc_client_python.Prelude.Int.{ℤ, eqb_ℤ}
use tirtc_client_python.Errors.{timeout_error}
use tirtc_client_python.Errors.Action.{ok, err, sdk}
use tirtc_client_python.Util.Retry.{
  Clock, Run, retry_loop, retry_in_use_result, first_delay, longest_delay, in_use_code,
}

module _ {N A : Type 0} (clock : Clock N) (code_of : A → ℤ) (operation : N → A × N) where
  -- An attempt that gave the result, and left the world behind.
  abbrev pub Attempted : A → N → Type 0
  Attempted a n = (m : N) × (operation m ≡ (a, n))

  abbrev pub FromAttempt : Run N A → Type 0
  FromAttempt none = Unit {0}
  FromAttempt (some (ok a, n)) = Attempted a n
  FromAttempt (some (err e, n)) = Unit {0}

  retry_loop-FromAttempt :
      (fuel deadline delay : ℕ) (n : N)
      → FromAttempt (retry_loop clock code_of operation fuel deadline delay n)
  unfolding retry_loop
  retry_loop-FromAttempt zero deadline delay n = tt
  retry_loop-FromAttempt (suc fuel) deadline delay n =
      let n' = (operation n).1 in
      if-cases FromAttempt (not (eqb_ℤ (code_of (operation n).0) in_use_code))
        {x = some (ok (operation n).0, n')} (λ done. (n, refl))
        λ busy.
          if-cases FromAttempt (leb deadline (clock.now n'))
            {x = some (err (sdk timeout_error), n')} (λ late. tt)
            λ early.
              retry_loop-FromAttempt fuel deadline (min (delay * 2) longest_delay)
                (clock.sleep (min delay (deadline - clock.now n')) n')

  pub retry_in_use_result-FromAttempt :
      (timeout : ℕ) (n : N) → FromAttempt (retry_in_use_result clock code_of operation timeout n)
  unfolding retry_in_use_result
  retry_in_use_result-FromAttempt timeout n =
      retry_loop-FromAttempt (timeout / first_delay + 2) (clock.now n + timeout) first_delay n
