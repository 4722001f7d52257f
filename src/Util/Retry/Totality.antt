-- ===== src/Util/Retry/Totality.antt =====
-- The loops end, within the fuel given, where the clock is one and the call does not turn it back.
use tirtc_client_python.Prelude.{
  ℕ, zero, suc, ◌+◌, ◌-◌, ◌*◌, ◌/◌, ◌≤◌, ◌≡◌, ◌⊎◌, Bool, true, false, Option, none, some, inl, inr,
  arith, leb, min, not, refl, if-cases, leb→le,
}
use tirtc_client_python.Prelude.Int.{ℤ, eqb_ℤ}
use tirtc_client_python.Errors.{timeout_error}
use tirtc_client_python.Errors.Action.{sdk, ok, err}
use tirtc_client_python.Util.Retry.{
  Clock, in_use_code, longest_delay, retry_loop, retry_in_use_result, close_loop, close_handle_code,
  Run,
}

-- What Python documents of the two: `sleep` suspends for at least the time it is given.
pub record IsClock {N : Type 0} (clock : Clock N) : Type 0 where
  pub sleeps : (k : ℕ) (n : N) → clock.now n + k ≤ clock.now (clock.sleep k n)

-- How a run of the retry ends: with a result that is not "in use", or with the timeout error once
-- the deadline has come.
abbrev pub Ends : {N A : Type 0} → Clock N → (A → ℤ) → ℕ → Run N A → Type 0
Ends clock code_of deadline none = ⊥
Ends clock code_of deadline (some (ok result, n)) = eqb_ℤ (code_of result) in_use_code ≡ false
Ends clock code_of deadline (some (err e, n)) = (e ≡ sdk timeout_error) × (deadline ≤ clock.now n)

not-true : (b : Bool) → not b ≡ true → b ≡ false
not-true true h = ground arith
not-true false h = refl

fuel_form : (timeout : ℕ) → timeout / 1000 + 2 ≡ suc (timeout / 1000 + 1)
fuel_form timeout = omega arith

module _ {N A : Type 0} (clock : Clock N) (law : IsClock clock) (code_of : A → ℤ)
    (operation : N → A × N) (forward : (n : N) → clock.now n ≤ clock.now (operation n).1) where
  -- `k` rounds of the shortest delay reach the deadline.
  retry_loop-Ends :
      (k deadline delay : ℕ) (n : N)
      → deadline ≤ clock.now n + 1000 * k
      → 1000 ≤ delay
      → Ends clock code_of deadline (retry_loop clock code_of operation (suc k) deadline delay n)
  unfolding retry_loop
  retry_loop-Ends zero deadline delay n h d =
      if-cases (Ends clock code_of deadline) (not (eqb_ℤ (code_of (operation n).0) in_use_code))
        {x = some (ok (operation n).0, (operation n).1)} (λ done. not-true _ done)
        λ busy.
          if-cases (Ends clock code_of deadline) (leb deadline (clock.now (operation n).1))
            {x = some (err (sdk timeout_error), (operation n).1)} (λ late. (refl, leb→le _ _ late))
            λ early. absurd (ground (arith, forward n))
  retry_loop-Ends (suc k) deadline delay n h d =
      let n' = (operation n).1 in
      let pause = min delay (deadline - clock.now n') in
      if-cases (Ends clock code_of deadline) (not (eqb_ℤ (code_of (operation n).0) in_use_code))
        {x = some (ok (operation n).0, (operation n).1)} (λ done. not-true _ done)
        λ busy.
          if-cases (Ends clock code_of deadline) (leb deadline (clock.now (operation n).1))
            {x = some (err (sdk timeout_error), (operation n).1)} (λ late. (refl, leb→le _ _ late))
            λ early.
              retry_loop-Ends k deadline (min (delay * 2) longest_delay) (clock.sleep pause n')
                (omega (arith, law.sleeps pause n', forward n)) (omega arith)

  -- Given a clock that `sleep` moves on by at least its argument, and a call that does not turn it
  -- back, `_retry_in_use_result` always ends: it returns a result whose code is not 6026, or it
  -- raises the timeout error, and then no earlier than `timeout` after its start.
  pub retry_in_use_result-Ends :
      (timeout : ℕ) (n : N)
      → Ends clock code_of
          (clock.now n + timeout)
          (retry_in_use_result clock code_of operation timeout n)
  unfolding retry_in_use_result
  retry_in_use_result-Ends timeout n = rw (fuel_form timeout) (
      retry_loop-Ends (timeout / 1000 + 1) (clock.now n + timeout) 1000 n (omega arith)
        (omega arith))

abbrev pub Closes : {N : Type 0} → Clock N → ℕ → Option (ℤ × N) → Type 0
Closes clock deadline none = ⊥
Closes clock deadline (some (code, n)) = (eqb_ℤ code in_use_code ≡ false) ⊎ (deadline ≤ clock.now n)

module _ {N : Type 0} (clock : Clock N) (law : IsClock clock) (close : N → ℤ × N)
    (forward : (n : N) → clock.now n ≤ clock.now (close n).1) where
  close_loop-Closes :
      (k deadline : ℕ) (n : N)
      → deadline ≤ clock.now n + 5000 * k
      → Closes clock deadline (close_loop clock close (suc k) deadline n)
  unfolding close_loop
  close_loop-Closes zero deadline n h =
      if-cases (Closes clock deadline) (not (eqb_ℤ (close n).0 in_use_code))
        {x = some ((close n).0, (close n).1)} (λ done. inl (not-true _ done))
        λ busy.
          if-cases (Closes clock deadline) (leb deadline (clock.now (close n).1))
            {x = some ((close n).0, (close n).1)} (λ late. inr (leb→le _ _ late))
            λ early. absurd (ground (arith, forward n))
  close_loop-Closes (suc k) deadline n h =
      let n' = (close n).1 in
      if-cases (Closes clock deadline) (not (eqb_ℤ (close n).0 in_use_code))
        {x = some ((close n).0, (close n).1)} (λ done. inl (not-true _ done))
        λ busy.
          if-cases (Closes clock deadline) (leb deadline (clock.now (close n).1))
            {x = some ((close n).0, (close n).1)} (λ late. inr (leb→le _ _ late))
            λ early.
              close_loop-Closes k deadline (clock.sleep 5000 n')
                (omega (arith, law.sleeps 5000 n', forward n))

  -- Given the same of the clock and of `close`, the loop of `_close_handle` always ends: with a
  -- code that is not 6026, or five seconds or more after its start with whatever code came then.
  pub close_handle-Closes :
      (n : N) → Closes clock (clock.now n + 5_000_000) (close_handle_code clock close n)
  unfolding close_handle_code
  close_handle-Closes n = close_loop-Closes 1001 (clock.now n + 5_000_000) n (omega arith)
