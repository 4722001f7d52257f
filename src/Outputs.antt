-- ===== src/Outputs.antt =====
-- src/tirtc/_core.py: the attaching, detaching and closing of `_OutputBase`, of which
-- src/tirtc/storage/__init__.py has a second copy for replays. Every section of these calls under the
-- output's lock is one function on the output and the sets `_outputs` of the parents; a parent is
-- known by a number. The state property and the events, which only set the kept state, are left out.
mod System
mod Formats
mod Frames
mod Sections
mod Reasons
mod Held
mod Kept
mod Tests
use tirtc_client_python.Prelude.{
  ℕ, suc, Bool, true, false, not, ◌&&◌, Option, none, some, ◌==◌, is_some, if◌then◌else◌,
}
use tirtc_client_python.Prelude.Int.{ℤ}
use tirtc_client_python.Errors.{in_use_error}
use tirtc_client_python.Errors.Action.{Exception, sdk, Result, ok, err}
use tirtc_client_python.Lifecycle.{
  Coordinator, Begun, own, wait, done, raised, begin, fail, succeed, require_open,
}

-- `bound` is the parent, and `held` whether a parent's `_outputs` holds the output. `idle` is whether
-- the kept state is IDLE.
pub record Output : Type 0 where
  pub close : Coordinator
  pub bound : Option ℕ
  pub detaching : Bool
  pub native_detached : Bool
  pub idle : Bool
  pub held : ℕ → Bool

abbrev pub hold : ℕ → Bool → Output → Output
hold p b o = record o { held = λ q. if q == p then b else o.held q }

-- `_detach` of the parent, and `_attach_failed`.
unfoldable pub parent_drops : ℕ → Output → Output
parent_drops p o = hold p false o

unfoldable pub bind : ℕ → Output → Output
bind p o = record o { bound = some p; native_detached = false }

attach_parent : ℕ → Result (Unit {0}) → Output → Result (Unit {0}) × Output
attach_parent p (ok u) o = (ok tt, hold p true o)
attach_parent p (err e) o = (err e, o)

attach_free : ℕ → Option ℕ → Result (Unit {0}) → Output → Result (Unit {0}) × Output
unfolding in_use_error attach_parent
attach_free p (some q) taken o = (err (sdk in_use_error), o)
attach_free p none taken o = attach_parent p taken o

attach_open : Result (Unit {0}) → ℕ → Result (Unit {0}) → Output → Result (Unit {0}) × Output
unfolding attach_free
attach_open (err e) p taken o = (err e, o)
attach_open (ok u) p taken o = attach_free p o.bound taken o

-- `attach` holds the output's lock throughout, but other threads see the parent's set before the
-- native call returns. Up to the parent's `_attach`, of which `taken` is what it comes to:
unfoldable pub attach_begin : ℕ → Result (Unit {0}) → Output → Result (Unit {0}) × Output
unfolding attach_open
attach_begin p taken o = attach_open (require_open o.close) p taken o

-- From the native attach on, of which `native` is what it comes to:
unfoldable pub attach_end : ℕ → Result (Unit {0}) → Output → Result (Unit {0}) × Output
unfolding parent_drops bind
attach_end p (ok u) o = (ok tt, bind p o)
attach_end p (err e) o = (err e, parent_drops p o)

unfoldable pub begin_detach : Output → Output
begin_detach o = record o { detaching = true; idle = true }

-- What is checked once the parent is known: no detach runs, the caller is no callback that would
-- wait for itself, and the native detach.
detach_checked : (blocking : Bool) → Result (Unit {0}) → Output → Result (Unit {0}) × Output
unfolding in_use_error begin_detach
detach_checked blocking native o =
    if o.detaching
    then (err (sdk in_use_error), o)
    else if blocking
    then (err (sdk in_use_error), o)
    else elim native [ ok u ↦ (ok tt, begin_detach o) | err e ↦ (err e, o) ]

-- What a call that detaches goes on to do.
pub data Detaching : Type 0 where
  leaves : ℕ → Detaching
  nothing : Detaching
  raises : Exception → Detaching

detach_result : ℕ → Result (Unit {0}) × Output → Detaching × Output
detach_result p (ok u, o) = (leaves p, o)
detach_result p (err e, o) = (raises e, o)

detach_bound :
    Exception → (blocking : Bool) → Result (Unit {0}) → Option ℕ → Output → Detaching × Output
unfolding detach_checked detach_result
detach_bound unbound blocking native none o = (raises unbound, o)
detach_bound unbound blocking native (some p) o = detach_result p (detach_checked blocking native o)

detach_open :
    Result (Unit {0})
    → Exception
    → (blocking : Bool) → Result (Unit {0})
    → Output
    → Detaching × Output
unfolding detach_bound
detach_open (err e) unbound blocking native o = (raises e, o)
detach_open (ok u) unbound blocking native o = detach_bound unbound blocking native o.bound o

-- The first section of `detach`; `unbound` is the error of code 6029.
unfoldable pub detach_begin :
    Exception → (blocking : Bool) → Result (Unit {0}) → Output → Detaching × Output
unfolding detach_open
detach_begin unbound blocking native o =
    detach_open (require_open o.close) unbound blocking native o

abbrev pub is_bound_to : ℕ → Option ℕ → Bool
is_bound_to p none = false
is_bound_to p (some q) = q == p

-- The first section of `_detach_from_parent`.
unfoldable pub parent_detach_begin :
    ℕ → (blocking : Bool) → Result (Unit {0}) → Output → Detaching × Output
unfolding detach_checked detach_result
parent_detach_begin p blocking native o =
    if not (is_bound_to p o.bound)
    then (nothing, o)
    else detach_result p (detach_checked blocking native o)

-- The last section of both, after which the parent is told.
unfoldable pub detach_end : Output → Output
detach_end o = record o { bound = none; detaching = false }

-- The first section of `_close_output`, with the parent that it goes on with.
unfoldable pub close_begin_output : (blocking : Bool) → Output → Begun × Output
unfolding in_use_error
close_begin_output blocking o =
    if o.detaching
    then (raised (sdk in_use_error), o)
    else if blocking
    then (raised (sdk in_use_error), o)
    else let (c, begun) = begin o.close false in (begun, record o { close = c })

-- Whether the body of the close detaches in native code.
unfoldable pub close_detaches : Option ℕ → Output → Bool
close_detaches bound o = is_some bound && not o.native_detached

unfoldable pub close_detached : Output → Output
close_detached o = record o { native_detached = true }

unfoldable pub close_fails : ℕ → Exception → Output → Output
close_fails g e o = record o { close = fail o.close g e }

-- The section after the body, and the end, once the parent has been told.
unfoldable pub close_unbinds : Output → Output
close_unbinds o = record o { bound = none; idle = true }

unfoldable pub close_succeeds : ℕ → Output → Output
close_succeeds g o = record o { close = succeed o.close g none }
