-- ===== src/Lifecycle.antt =====
-- src/tirtc/_lifecycle.py: `_CloseCoordinator`, which lets one thread close an object while the
-- others wait for its outcome. Every section under the condition's lock is one function; the loop
-- in `begin` that waits is `wake`, which is blocked until the outcome is there.
mod System
mod Consistency
pub mod Invariant
mod Safety
mod Outcomes
mod Tests
use tirtc_client_python.Prelude.{
  ℕ, suc, ◌+◌, ◌-◌, Bool, Option, none, some, ◌==◌, if◌then◌else◌, get_or, insert, erase,
}
use tirtc_client_python.Errors.{closed_error, in_use_error}
use tirtc_client_python.Errors.Action.{
  Exception, sdk, builtin, foreign, Builtin, key_error, Result, ok, err,
}

pub data Status : Type 0 where
  open_ closing close_failed closed : Status

-- `outcomes` and `waiters` are the two dicts, keyed by the generation.
pub record Coordinator : Type 0 where
  pub status : Status
  pub generation : ℕ
  pub outcomes : ℕ → Option (Option Exception)
  pub waiters : ℕ → Option ℕ

unfoldable pub new : Coordinator
new = record { status = open_; generation = 0; outcomes = λ _. none; waiters = λ _. none }

unfoldable pub copy_error : Exception → Exception
copy_error (sdk e) =
    sdk (record { error_type = e.error_type; message = e.message; code = e.code; name = e.name })
copy_error (builtin b message) = builtin b message
copy_error (foreign message) = foreign message

unfoldable pub require_status : Status → Result (Unit {0})
require_status open_ = ok tt
require_status _ = err (sdk closed_error)

unfoldable pub require_open : Coordinator → Result (Unit {0})
unfolding require_status
require_open c = require_status c.status

-- What `begin` comes to: the caller owns a new generation, waits for a running one, gets None, or
-- an exception.
pub data Begun : Type 0 where
  own : ℕ → Begun
  wait : ℕ → Begun
  done : Begun
  raised : Exception → Begun

unfoldable pub start : Coordinator → Coordinator × Begun
start c = (record c { generation = suc c.generation; status = closing }, own (suc c.generation))

join : Coordinator → Coordinator × Begun
join c = (
  record c { waiters = insert c.generation (get_or (c.waiters c.generation) 0 + 1) c.waiters },
  wait c.generation,
)

unfoldable pub begin_at : Status → Coordinator → Bool → Coordinator × Begun
unfolding start join
begin_at open_ c preflight_in_use =
    if preflight_in_use then (c, raised (sdk in_use_error)) else start c
begin_at closing c preflight_in_use = join c
begin_at close_failed c preflight_in_use = start c
begin_at closed c preflight_in_use = (c, done)

unfoldable pub begin : Coordinator → Bool → Coordinator × Begun
unfolding begin_at
begin c preflight_in_use = begin_at c.status c preflight_in_use

report : Option Exception → Result (Unit {0})
report none = ok tt
report (some e) = err (copy_error e)

-- The `finally` block of the wait, and what the wait returns or raises.
leave : Coordinator → ℕ → Option ℕ → Option Exception → Coordinator × Result (Unit {0})
unfolding report
leave c g none outcome = (c, err (builtin key_error "generation"))
leave c g (some n) outcome = (
  if n - 1 == 0
      then record c { waiters = erase g c.waiters; outcomes = erase g c.outcomes }
      else record c { waiters = insert g (n - 1) c.waiters },
  report outcome,
)

-- A thread that waits for generation `g` looks again; `none` means that it goes on waiting.
unfoldable pub wake : Coordinator → ℕ → Option (Coordinator × Result (Unit {0}))
unfolding leave
wake c g = elim (c.outcomes g) [
  | none ↦ none
  | some outcome ↦ some (leave c g (c.waiters g) outcome)
]

publish : Coordinator → ℕ → Option Exception → Coordinator
publish c g outcome =
    if get_or (c.waiters g) 0 == 0 then c else record c { outcomes = insert g outcome c.outcomes }

unfoldable pub fail : Coordinator → ℕ → Exception → Coordinator
unfolding publish
fail c g error = record (publish c g (some error)) { status = close_failed }

unfoldable pub succeed : Coordinator → ℕ → Option Exception → Coordinator
unfolding publish
succeed c g error = record (publish c g error) { status = closed }
