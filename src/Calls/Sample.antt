-- ===== src/Calls/Sample.antt =====
-- A world for the tests: the clock's reading in microseconds, and native calls that succeed.
use tirtc_client_python.Prelude.{ℕ, ◌+◌}
use tirtc_client_python.Prelude.Int.{ℤ, pos}
use tirtc_client_python.Errors.{TirtcError, error_from_code}
use tirtc_client_python.Errors.Action.{Result, ok}
use tirtc_client_python.Calls.{Sdk}

abbrev pub named : ℤ → TirtcError
unfolding error_from_code
named code = error_from_code code "NAME"

abbrev pub base : Sdk ℕ
base = record {
  clock = record { now = λ n. n; sleep = λ k n. n + k };
  code_error = named;
  process = λ n. ok tt;
}

abbrev pub succeeds_now : ℕ → ℤ × ℕ
succeeds_now n = (pos 0, n)

abbrev pub returns_now : ℕ → Result (Unit {0}) × ℕ
returns_now n = (ok tt, n)
