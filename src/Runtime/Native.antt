-- ===== src/Runtime/Native.antt =====
-- The calls that src/tirtc/_runtime.py makes of native code, whose sources are not in the
-- repository, and of the operating system. `N` is the state of both, `H` a native handle.
use tirtc_client_python.Prelude.{ℕ, String, Bool, true, Option, ◌≡◌, is_some}
use tirtc_client_python.Prelude.Int.{ℤ, pos}
use tirtc_client_python.Util.Retry.{Clock}
use tirtc_client_python.Runtime.{Configuration}

-- A call that gives a code gives 0 where it succeeds. `make_directory`, `create_file` and
-- `remove_file` tell whether there was no OSError.
pub record Native (N H : Type 0) : Type 0 where
  pub clock : Clock N
  pub error_name : ℤ → String
  pub rtc_client_create : Configuration → String × String → N → (ℤ × Option H) × N
  pub rtc_initialize : Configuration → N → ℤ × N
  pub rtc_shutdown : N → ℤ × N
  pub storage_client_create : Configuration → String × String → N → (ℤ × Option H) × N
  pub storage_initialize : Configuration → N → ℤ × N
  pub storage_shutdown : N → ℤ × N
  pub close : H → N → ℤ × N
  pub upload_logs : N → (ℤ × String) × N
  pub make_directory : String → N → Bool × N
  pub create_file : String → ℕ → N → Bool × N
  pub remove_file : String → ℕ → N → Bool × N

-- What is relied on: a client that was created has a handle.
pub record GivesHandles {N H : Type 0} (native : Native N H) : Type 0 where
  pub rtc_handle :
      (c : Configuration) (keys : String × String) (n : N)
      → (native.rtc_client_create c keys n).0.0 ≡ pos 0
      → is_some (native.rtc_client_create c keys n).0.1 ≡ true
  pub storage_handle :
      (c : Configuration) (keys : String × String) (n : N)
      → (native.storage_client_create c keys n).0.0 ≡ pos 0
      → is_some (native.storage_client_create c keys n).0.1 ≡ true
