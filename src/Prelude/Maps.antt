-- ===== src/Prelude/Maps.antt =====
-- A dict keyed by numbers whose order does not matter, as a function.
use Prim.Native.Nat.{ℕ}
use mathlib.Core.Option.{Option, none, some}
use tirtc_client_python.Prelude.Tests.{◌==◌, if◌then◌else◌}

module _ {ℓ} {V : Type ℓ} where
  -- `d[k] = v`
  abbrev pub insert : ℕ → V → (ℕ → Option V) → ℕ → Option V
  insert k v d j = if k == j then some v else d j

  -- `d.pop(k, None)`
  abbrev pub erase : ℕ → (ℕ → Option V) → ℕ → Option V
  erase k d j = if k == j then none else d j
