-- ===== src/Calls.antt =====
-- How the methods of the SDK's objects call native code: `_check_process`, `_check_code`,
-- `_retry_in_use` and `_retry_in_use_result` of src/tirtc/_runtime.py and src/tirtc/_util.py, as
-- actions on an object and the world outside it.
pub mod Closing
pub mod Effects
pub mod Returned
pub mod Sample
mod Tests
use tirtc_client_python.Prelude.{ℕ, Bool, Option, none, some, if◌then◌else◌}
use tirtc_client_python.Prelude.Int.{ℤ, pos, eqb_ℤ}
use tirtc_client_python.Errors.{TirtcError}
use tirtc_client_python.Errors.Action.{
  Exception, sdk, foreign, Result, ok, err, Action, pure, raise, raise_if, ◌>>=◌, ◌>>◌,
}
use tirtc_client_python.Util.Retry.{Clock, Run, retry_in_use_result}

-- What a method relies on outside its object, `N` being the state of the rest: the clock,
-- `_error_from_code(code, _error_name(code))`, and what `_check_process` comes to.
pub record Sdk (N : Type 0) : Type 0 where
  pub clock : Clock N
  pub code_error : ℤ → TirtcError
  pub process : N → Result (Unit {0})

-- An object without its close coordinator, and the world.
pub record Held (S N : Type 0) : Type 0 where
  pub self : S
  pub world : N

abbrev pub Call : Type 0 → Type 0 → Type 0 → Type 0
Call S N A = Action (Held S N) A

-- What a raise says where the fuel of a retry would have run out.
abbrev pub out_of_fuel : Exception
out_of_fuel = foreign "out of fuel"

unfoldable pub failure_named : Exception → Result (Unit {0}) → Result (Option Exception)
failure_named e (ok u) = ok (some e)
failure_named e (err refusal) = err refusal

module _ {N : Type 0} (native : Sdk N) where
  -- `_error_from_code(code, _error_name(code)) if code else None`, where `_error_name` checks the
  -- process.
  unfoldable pub failure_of : ℤ → N → Result (Option Exception)
  unfolding failure_named
  failure_of code n =
      if eqb_ℤ code (pos 0)
      then ok none
      else failure_named (sdk (native.code_error code)) (native.process n)

unfoldable pub raise_failure : Result (Option Exception) → Result (Unit {0})
raise_failure (ok none) = ok tt
raise_failure (ok (some e)) = err e
raise_failure (err e) = err e

module _ {S N : Type 0} where
  -- A native call, a write to the object, and a read.
  abbrev pub outside : {A : Type 0} → (N → A × N) → Call S N A
  outside f s = let (a, n) = f s.world in (ok a, record s { world = n })

  abbrev pub change : (S → S) → Call S N (Unit {0})
  change f s = (ok tt, record s { self = f s.self })

  abbrev pub reads : {A : Type 0} → (S → A) → Call S N A
  reads f s = (ok (f s.self), s)

  -- `try: ... except BaseException as error`, which keeps what was written.
  abbrev pub caught : {A : Type 0} → Call S N A → Call S N (Result A)
  caught m s = let (r, t) = m s in (ok r, t)

  abbrev pub checks : (S → Bool) → Exception → Call S N (Unit {0})
  checks test e s = raise_if (test s.self) e s

  module _ (native : Sdk N) where
    unfoldable pub require_process : Call S N (Unit {0})
    require_process s = (native.process s.world, s)

    -- `_check_code`
    unfoldable pub expect_zero : ℤ → Call S N (Unit {0})
    unfolding failure_of raise_failure
    expect_zero code s = (raise_failure (failure_of native code s.world), s)

    -- A native call whose code is checked.
    unfoldable pub checked : (N → ℤ × N) → Call S N (Unit {0})
    unfolding expect_zero
    checked f = outside f >>= expect_zero

    -- One that also gives a value.
    unfoldable pub checked_value : {A : Type 0} → (N → (ℤ × A) × N) → Call S N A
    unfolding expect_zero
    checked_value f = outside f >>= λ (code, a). expect_zero code >> pure a

    unfoldable pub run_result : {A : Type 0} → Run N A → Call S N A
    run_result none s = raise out_of_fuel s
    run_result (some (r, n)) s = (r, record s { world = n })

    -- `_retry_in_use_result`, for five seconds, with the code of what the call gives.
    unfoldable pub retry_result : {A : Type 0} → (A → ℤ) → (N → A × N) → Call S N A
    unfolding run_result
    retry_result code_of f s =
        run_result (retry_in_use_result native.clock code_of f 5_000_000 s.world) s

    -- `_retry_in_use`
    unfoldable pub retry_in_use : (N → ℤ × N) → Call S N (Unit {0})
    unfolding retry_result expect_zero
    retry_in_use f = retry_result (λ code. code) f >>= expect_zero
