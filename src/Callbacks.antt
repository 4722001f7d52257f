-- ===== src/Callbacks.antt =====
-- Which objects a running callback belongs to: `_callback_descends_from` of
-- src/tirtc/storage/__init__.py and `_rtc_callback_client` of src/tirtc/_core.py. An object is known by
-- a number below `size`, as `id` does, and its attributes are functions, `none` where the attribute is
-- missing or None.
mod Measure
mod Descent
mod Owners
mod Tests
use tirtc_client_python.Prelude.{
  ℕ, zero, suc, ◌+◌, ◌*◌, Bool, true, false, ◌&&◌, Option, none, some, List, [], ◌∷◌, ◌++◌, ◌==◌,
  any, ltb,
}

pub record Objects : Type 0 where
  pub client : ℕ → Option ℕ
  pub parent : ℕ → Option ℕ
  pub replay : ℕ → Option ℕ
  pub bound : ℕ → Option ℕ
  pub is_client : ℕ → Bool

abbrev pub mem : ℕ → List ℕ → Bool
mem v seen = any (λ u. u == v) seen

-- What the four attributes add to the stack, the top first.
unfoldable pub links : Objects → ℕ → List (Option ℕ)
links objects v = objects.bound v ∷ objects.replay v ∷ objects.parent v ∷ objects.client v ∷ []

module _ (objects : Objects) (target : ℕ) where
  -- The loop, a round for each unit of fuel; `none` where the fuel runs out.
  pub walk : ℕ → List (Option ℕ) → List ℕ → Option Bool
  unfolding links
  walk zero pending seen = none
  walk (suc fuel) [] seen = some false
  walk (suc fuel) (none ∷ rest) seen = walk fuel rest seen
  walk (suc fuel) (some c ∷ rest) seen = elim (mem c seen) [
    | true ↦ walk fuel rest seen
    | false ↦ elim (c == target) [
      | true ↦ some true
      | false ↦ walk fuel (links objects c ++ rest) (c ∷ seen)
    ]
  ]

  -- `_callback_descends_from(owner, target)`
  unfoldable pub callback_descends_from : ℕ → Option ℕ → Option Bool
  unfolding walk
  callback_descends_from size owner = walk (4 * size + 2) (owner ∷ []) []

-- `getattr(owner, "_parent", None) or getattr(owner, "_bound", None)`
abbrev pub or_else : Option ℕ → Option ℕ → Option ℕ
or_else none b = b
or_else (some a) b = some a

-- `client if isinstance(client, Client) else None`
abbrev pub client_of : Objects → Option ℕ → Option ℕ
client_of objects none = none
client_of objects (some c) = elim (objects.is_client c) [ true ↦ some c | false ↦ none ]

module _ (objects : Objects) where
  pub climb : ℕ → Option ℕ → List ℕ → Option (Option ℕ)
  climb zero owner seen = none
  climb (suc fuel) none seen = some none
  climb (suc fuel) (some v) seen = elim (mem v seen) [
    | true ↦ some none
    | false ↦ elim (objects.is_client v) [
      | true ↦ some (some v)
      | false ↦ elim (client_of objects (objects.client v)) [
        | some c ↦ some (some c)
        | none ↦ climb fuel (or_else (objects.parent v) (objects.bound v)) (v ∷ seen)
      ]
    ]
  ]

  -- `_rtc_callback_client(owner)`
  unfoldable pub rtc_callback_client : ℕ → Option ℕ → Option (Option ℕ)
  unfolding climb
  rtc_callback_client size owner = climb (size + 2) owner []
