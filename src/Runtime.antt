-- ===== src/Runtime.antt =====
-- src/tirtc/_runtime.py: the module's globals, the leases on the native runtime that a Client and
-- a CloudStorage hold, and the check of the process.
pub mod Paths
pub mod Options
pub mod Native
pub mod Leases
pub mod Calls
mod Lookup
mod Agreement
mod Validity
mod Updates
use tirtc_client_python.Prelude.{
  ℕ, String, Bool, true, false, not, ◌&&◌, ◌||◌, Option, none, some, List, [], ◌==◌, str_eq,
  if◌then◌else◌, is_empty,
}
use tirtc_client_python.Errors.{TirtcError, new_error, unsupported}
use tirtc_client_python.Errors.Action.{sdk, Result, ok, err}

-- `_Product` and `_AuthMode`
pub data Product : Type 0 where
  rtc storage : Product

pub data Mode : Type 0 where
  access_key external_token : Mode

pub record Configuration : Type 0 where
  pub app_id : String
  pub cache_dir : String
  pub endpoint : Option String
  pub console_log_enabled : Bool

-- The attributes of a lease that never change; `id` is the object's identity.
pub record Lease : Type 0 where
  pub id : ℕ
  pub product : Product
  pub mode : Mode
  pub configuration : Configuration

-- The globals, with the `_closed` and `handle` of the leases by identity. `pid` is what
-- `os.getpid()` returns, and `next_id` the identity of the next lease.
pub record Runtime (H : Type 0) : Type 0 where
  pub active : List Lease
  pub rtc_lease : Option ℕ
  pub external_configuration : Option (String × Option String)
  pub external_count : ℕ
  pub shared : Option (String × Bool)
  pub process_id : ℕ
  pub forked_with_runtime : Bool
  pub finalizing : Bool
  pub closed : ℕ → Bool
  pub handle : ℕ → Option H
  pub next_id : ℕ
  pub pid : ℕ

abbrev pub finalizing_error : TirtcError
unfolding new_error
finalizing_error =
    new_error unsupported none "interpreter_finalizing"
      (some "TiRTC cannot be used while the Python interpreter is finalizing")

abbrev pub forked_error : TirtcError
unfolding new_error
forked_error =
    new_error unsupported none "forked_process"
      (some "create the TiRTC Client inside the worker process after fork")

module _ {H : Type 0} where
  -- The module as it is imported in process `pid`.
  unfoldable pub loaded : ℕ → Runtime H
  loaded pid = record {
    active = [];
    rtc_lease = none;
    external_configuration = none;
    external_count = 0;
    shared = none;
    process_id = pid;
    forked_with_runtime = false;
    finalizing = false;
    closed = λ i. false;
    handle = λ i. none;
    next_id = 0;
    pid = pid;
  }

  -- `_mark_finalizing`
  unfoldable pub mark_finalizing : Runtime H → Runtime H
  mark_finalizing r = record r { finalizing = true }

  -- The globals in a child with process id `child`, after `_after_fork_child` has run there.
  unfoldable pub after_fork_child : ℕ → Runtime H → Runtime H
  after_fork_child child r = record r {
    forked_with_runtime = not (is_empty r.active);
    process_id = child;
    pid = child;
  }

  unfoldable pub process_is_current : Runtime H → Bool
  process_is_current r = r.pid == r.process_id && not r.forked_with_runtime && not r.finalizing

  unfoldable pub check_process : Runtime H → Result (Unit {0})
  unfolding process_is_current
  check_process r =
      if process_is_current r
      then ok tt
      else err (sdk (if r.finalizing then finalizing_error else forked_error))
