-- ===== src/Children.antt =====
-- How an object closes those below it: the loop that a client, a cloud and a replay share
-- (src/tirtc/_core.py, src/tirtc/storage/__init__.py). The children are known by numbers, and their
-- state is a part of the world.
pub mod Trace
pub mod Closed
mod Tests
use tirtc_client_python.Prelude.{
  ℕ, Bool, true, false, Option, none, some, List, [], ◌∷◌, if◌then◌else◌, not, keep_if, ◌==◌,
}
use tirtc_client_python.Errors.Action.{Exception, Result, ok, err, ◌>>◌, pure}
use tirtc_client_python.Calls.{Held, Call}

-- A child as its parent sees it: its close, and whether it is closed.
pub record Children (N : Type 0) : Type 0 where
  pub close_child : ℕ → N → Result (Unit {0}) × N
  pub child_closed : ℕ → N → Bool

-- A set of children without one of them.
abbrev pub without_id : ℕ → List ℕ → List ℕ
without_id c cs = keep_if (λ d. not (d == c)) cs

-- `if child_error is None: child_error = error`
abbrev pub keep_first : Option Exception → Exception → Option Exception
keep_first none e = some e
keep_first (some first) e = some first

module _ {S N : Type 0} where
  -- A call that may raise and that changes only the world.
  abbrev pub calls : {A : Type 0} → (N → Result A × N) → Call S N A
  calls f s = let (r, n) = f s.world in (r, record s { world = n })

  -- `for ... in ...:` whose body raises through.
  abbrev pub for_each : (ℕ → N → Result (Unit {0}) × N) → List ℕ → Call S N (Unit {0})
  for_each f [] = pure tt
  for_each f (c ∷ rest) = calls (f c) >> for_each f rest

module _ {N : Type 0} (children : Children N) where
  -- The loop, on the world: the first error of a child that is closed is kept, and the error of a
  -- child that is not closed is raised.
  unfoldable pub close_each : List ℕ → Option Exception → N → Result (Option Exception) × N
  close_each [] first n = (ok first, n)
  close_each (c ∷ rest) first n =
      let (r, n') = children.close_child c n in
      elim r [
        | ok u ↦ close_each rest first n'
        | err e ↦
            if children.child_closed c n'
            then close_each rest (keep_first first e) n'
            else (err e, n')
      ]
