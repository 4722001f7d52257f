-- ===== src/Runtime/Calls.antt =====
-- src/tirtc/_runtime.py: `_acquire_rtc`, `_acquire_storage`, `_release` and `_upload_logs`, each
-- as one step: all but the check of the arguments runs under the module's lock.
mod Effects
mod Acquire
mod Results
mod System
mod Invariant
mod Processes
mod Tests
use Prim.Native.String.{◌++◌}
use tirtc_client_python.Prelude.{
  ℕ, String, Bool, true, false, not, Option, none, some, ◌==◌, if◌then◌else◌, is_some,
}
use tirtc_client_python.Prelude.Int.{ℤ, pos, eqb_ℤ}
use tirtc_client_python.Objects.{Object}
use tirtc_client_python.Errors.{error_from_code, in_use_error, closed_error, io_error}
use tirtc_client_python.Errors.Action.{
  sdk, builtin, runtime_error, assertion_error, Result, ok, err, Action, pure, raise, gets,
  raise_if, ◌>>=◌, ◌>>◌,
}
use tirtc_client_python.Util.Retry.{close_handle_code}
use tirtc_client_python.Runtime.{
  Product, rtc, storage, Mode, access_key, external_token, Configuration, Lease, Runtime,
  check_process,
}
use tirtc_client_python.Runtime.Options.{ClientOptions, normalize_options, validate_access_keys}
use tirtc_client_python.Runtime.Native.{Native}
use tirtc_client_python.Runtime.Leases.{
  State, find, shared_agrees, external_agrees, is_external, shared_error, external_error,
  out_of_fuel, add_rtc, add_storage, drop_lease,
}

-- The credentials, which only the mode `access_key` has.
pub credentials : Mode → Object → Object → Result (Option (String × String))
unfolding validate_access_keys
credentials access_key key_id secret = elim (validate_access_keys key_id secret) [
  | ok keys ↦ ok (some keys)
  | err e ↦ err e
]
credentials external_token key_id secret = ok none

module _ {N H : Type 0} (native : Native N H) where
  -- An action on the module's globals and the world outside.
  abbrev pub Call : Type 0 → Type 0
  Call A = Action (State N H) A

  -- A native call, one that changes the globals, and one that computes from them.
  abbrev pub outside : {A : Type 0} → (N → A × N) → Call A
  outside f s = let (a, n) = f s.world in (ok a, record s { world = n })

  abbrev pub change : (Runtime H → Runtime H) → Call (Unit {0})
  change f s = (ok tt, record s { runtime = f s.runtime })

  abbrev pub reads : {A : Type 0} → (Runtime H → Result A) → Call A
  reads f s = (f s.runtime, s)

  -- `_check_code`, whose `_error_name` checks the process again.
  pub check_code : ℤ → Call (Unit {0})
  unfolding check_process error_from_code
  check_code code =
      if eqb_ℤ code (pos 0)
      then pure tt
      else reads check_process >> raise (sdk (error_from_code code (native.error_name code)))

  file_call : Configuration → (N → Bool × N) → Call (Unit {0})
  unfolding io_error
  file_call c f = outside f >>= λ done.
      raise_if (not done) (sdk (io_error ("cache_dir is not writable: " ++ c.cache_dir)))

  -- `_prepare_cache`: the directory, and a probe that is written and removed.
  pub prepare_cache : Configuration → Call (Unit {0})
  unfolding file_call
  prepare_cache c = gets (λ s. s.runtime.pid) >>= λ pid.
      file_call c (native.make_directory c.cache_dir)
      >> file_call c (native.create_file c.cache_dir pid)
      >> file_call c (native.remove_file c.cache_dir pid)

  pub preflight_shared : Configuration → Call (Unit {0})
  preflight_shared c s = raise_if (not (shared_agrees s.runtime.shared c)) (sdk shared_error) s

  create :
      (Configuration → String × String → N → (ℤ × Option H) × N)
      → Configuration
      → String × String
      → Call (Option H)
  unfolding check_code
  create f c keys = outside (f c keys) >>= λ (code, handle). check_code code >> pure handle

  -- The native call of `_acquire_rtc`, by the mode.
  pub start_rtc : Configuration → Option (String × String) → Call (Option H)
  unfolding create check_code
  start_rtc c (some keys) = create native.rtc_client_create c keys
  start_rtc c none = outside (native.rtc_initialize c) >>= check_code >> pure none

  -- That of `_acquire_storage`: `storage_initialize` for the first lease only.
  pub start_storage : Configuration → Option (String × String) → Call (Option H)
  unfolding create check_code
  start_storage c (some keys) s = create native.storage_client_create c keys s
  start_storage c none s =
      if s.runtime.external_count == 0
      then (outside (native.storage_initialize c) >>= check_code >> pure none) s
      else pure none s

  pub add : (Configuration → Option H → Runtime H → Runtime H) → Configuration → Option H → Call ℕ
  add f c handle s = (ok s.runtime.next_id, record s { runtime = f c handle s.runtime })

  -- What comes under the lock, once the arguments are checked.
  pub rtc_locked : Mode → Configuration → Option (String × String) → Call ℕ
  unfolding preflight_shared prepare_cache start_rtc add add_rtc in_use_error
  rtc_locked mode c keys =
      (λ s. raise_if (is_some s.runtime.rtc_lease) (sdk in_use_error) s)
      >> preflight_shared c
      >> prepare_cache c
      >> (start_rtc c keys >>= add (add_rtc mode) c)

  pub storage_locked : Mode → Configuration → Option (String × String) → Call ℕ
  unfolding preflight_shared prepare_cache start_storage add add_storage
  storage_locked mode c keys =
      preflight_shared c
      >> (λ s.
          raise_if
            (if is_external mode
              then not (external_agrees s.runtime.external_configuration c)
              else false)
            (sdk external_error) s)
      >> prepare_cache c
      >> (start_storage c keys >>= add (add_storage mode) c)

  -- `fspath` is `__fspath__` of the callers' own objects.
  module _ (fspath : ℕ → Option Object) where
    pub acquire :
        (Mode → Configuration → Option (String × String) → Call ℕ)
        → Option ClientOptions
        → Mode
        → Object
        → Object
        → Call ℕ
    unfolding check_process normalize_options credentials
    acquire locked options mode key_id secret =
        reads check_process
        >> (reads (λ r. normalize_options fspath options) >>= λ c.
            reads (λ r. credentials mode key_id secret) >>= λ keys. locked mode c keys)

    unfoldable pub acquire_rtc : Option ClientOptions → Mode → Object → Object → Call ℕ
    unfolding acquire rtc_locked
    acquire_rtc = acquire rtc_locked

    unfoldable pub acquire_storage : Option ClientOptions → Mode → Object → Object → Call ℕ
    unfolding acquire storage_locked
    acquire_storage = acquire storage_locked

  -- `_close_handle`: the loop, and `_check_code` of what it ended with.
  close_code : Option (ℤ × N) → Call (Unit {0})
  unfolding check_code
  close_code none s = raise out_of_fuel s
  close_code (some (code, n)) s = check_code code (record s { world = n })

  pub close_handle : H → Call (Unit {0})
  unfolding close_code
  close_handle h s = close_code (close_handle_code native.clock (native.close h) s.world) s

  pub close_stored : Option H → Call (Unit {0})
  unfolding close_handle
  close_stored none = raise (builtin assertion_error "")
  close_stored (some h) = close_handle h

  -- The native call of `_release`, by the lease's mode and product.
  pub stop_native : Product → Mode → ℕ → Call (Unit {0})
  unfolding close_stored check_code
  stop_native product access_key i s = close_stored (s.runtime.handle i) s
  stop_native rtc external_token i s = (outside native.rtc_shutdown >>= check_code) s
  stop_native storage external_token i s =
      if s.runtime.external_count == 0
      then raise (builtin runtime_error "invalid external-token Cloud Client lease count") s
      else if s.runtime.external_count == 1
      then (outside native.storage_shutdown >>= check_code) s
      else pure tt s

  pub release_found : Option Lease → Call (Unit {0})
  unfolding stop_native drop_lease in_use_error
  release_found none = raise (sdk in_use_error)
  release_found (some l) = stop_native l.product l.mode l.id >> change (drop_lease l)

  -- `_release`, of the lease with identity `i`.
  unfoldable pub release : ℕ → Call (Unit {0})
  unfolding check_process release_found
  release i = reads check_process >> λ s.
      if s.runtime.closed i then pure tt s else release_found (find i s.runtime.active) s

  unfoldable pub upload_logs : ℕ → Call String
  unfolding check_process closed_error check_code
  upload_logs i =
      reads check_process
      >> (λ s.
          raise_if (if s.runtime.closed i then true else not (is_some (find i s.runtime.active)))
            (sdk closed_error) s)
      >> (outside native.upload_logs >>= λ (code, log_id). check_code code >> pure log_id)
