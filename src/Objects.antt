-- ===== src/Objects.antt =====
-- The Python objects that the SDK's validators tell apart and that its callbacks carry.
use tirtc_client_python.Prelude.{ℕ, Bool, String, List}
use tirtc_client_python.Prelude.Int.{ℤ}

-- `timedelta d s u` is days, seconds and microseconds; `other` is any object of another type,
-- such as a callable or a native task, by its identity.
pub data Object : Type 0 where
  none_value : Object
  bool : Bool → Object
  int : ℤ → Object
  str : String → Object
  bytes : List ℕ → Object
  timedelta : (days : ℤ) (seconds microseconds : ℕ) → Object
  other : ℕ → Object
