-- ===== src/Runtime/Calls/Processes.antt =====
-- Every call checks the process first.
use tirtc_client_python.Prelude.{
  ℕ, ◌≡◌, sym, subst, true, false, Option, none, arith, if◌then◌else◌, is_empty,
}
use tirtc_client_python.Objects.{Object, none_value}
use tirtc_client_python.Errors.Action.{Exception, sdk, Result, err}
use tirtc_client_python.Runtime.{
  Mode, external_token, Runtime, mark_finalizing, after_fork_child, process_is_current,
  check_process, finalizing_error, forked_error,
}
use tirtc_client_python.Runtime.Options.{ClientOptions}
use tirtc_client_python.Runtime.Native.{Native}
use tirtc_client_python.Runtime.Leases.{State}
use tirtc_client_python.Runtime.Calls.{acquire, acquire_rtc, acquire_storage, release, upload_logs}
use tirtc_client_python.Runtime.Calls.System.{
  Step, rtc_acquired, storage_acquired, released, uploaded, finalizes, forks, elsewhere, Reach,
  here, next,
}

module _ {N H : Type 0} (native : Native N H) (fspath : ℕ → Option Object) where
  -- What a call raises in a process that may not use the runtime.
  abbrev pub refusal : Runtime H → Exception
  refusal r = sdk (if r.finalizing then finalizing_error else forked_error)

  -- Where the process is another one than that which loaded the module, or was forked with leases,
  -- or the interpreter is finalizing: every call raises the error that says so, "finalizing"
  -- before "forked", and leaves the globals and the world outside as they are.
  pub stale_process_refused :
      (s : State N H) (options : Option ClientOptions) (mode : Mode) (key_id secret : Object)
      (i : ℕ)
      → process_is_current s.runtime ≡ false
      → (acquire_rtc native fspath options mode key_id secret s ≡ (err (refusal s.runtime), s))
        × (acquire_storage native fspath options mode key_id secret s
            ≡ (err (refusal s.runtime), s))
        × (release native i s ≡ (err (refusal s.runtime), s))
        × (upload_logs native i s ≡ (err (refusal s.runtime), s))
  unfolding acquire acquire_rtc acquire_storage release upload_logs check_process
  stale_process_refused s options mode key_id secret i stale =
      (ground arith, ground arith, ground arith, ground arith)

  -- Forked with leases, which a process that is refused can never release.
  abbrev HoldsForkedLeases : State N H → Type 0
  HoldsForkedLeases s = (s.runtime.forked_with_runtime ≡ true) × (is_empty s.runtime.active ≡ false)

  holder_is_stale : (s : State N H) → HoldsForkedLeases s → process_is_current s.runtime ≡ false
  unfolding process_is_current
  holder_is_stale s (forked, held) = ground arith

  unchanged :
      {A : Type 0} (s : State N H) (x : Result A × State N H) (e : Exception)
      → x ≡ (err e, s)
      → HoldsForkedLeases s
      → HoldsForkedLeases x.1
  unchanged s x e same holds = subst (λ y. HoldsForkedLeases y.1) (sym same) holds

  Step-HoldsForkedLeases :
      {s t : State N H} → Step native fspath s t → HoldsForkedLeases s → HoldsForkedLeases t
  unfolding mark_finalizing after_fork_child
  Step-HoldsForkedLeases {s = s} (rtc_acquired options mode key_id secret) h =
      unchanged s _ (refusal s.runtime)
        (stale_process_refused s options mode key_id secret 0 (holder_is_stale s h)).0 h
  Step-HoldsForkedLeases {s = s} (storage_acquired options mode key_id secret) h =
      unchanged s _ (refusal s.runtime)
        (stale_process_refused s options mode key_id secret 0 (holder_is_stale s h)).1 h
  Step-HoldsForkedLeases {s = s} (released i) h =
      unchanged s _ (refusal s.runtime)
        (stale_process_refused s none external_token none_value none_value i
          (holder_is_stale s h)).2
        h
  Step-HoldsForkedLeases {s = s} (uploaded i) h =
      unchanged s _ (refusal s.runtime)
        (stale_process_refused s none external_token none_value none_value i
          (holder_is_stale s h)).3
        h
  Step-HoldsForkedLeases finalizes h = h
  Step-HoldsForkedLeases (forks child) (forked, held) = (ground arith, held)
  Step-HoldsForkedLeases (elsewhere n) h = h

  Reach-HoldsForkedLeases :
      {s t : State N H} → Reach native fspath s t → HoldsForkedLeases s → HoldsForkedLeases t
  Reach-HoldsForkedLeases here h = h
  Reach-HoldsForkedLeases (next r step) h =
      Step-HoldsForkedLeases step (Reach-HoldsForkedLeases r h)

  -- A process forked while a lease was active can never use the runtime again, nor can one that is
  -- forked from it: no calls, in any order, make its process the current one.
  pub child_stays_refused :
      (s t : State N H) (child : ℕ)
      → is_empty s.runtime.active ≡ false
      → Reach native fspath (record s { runtime = after_fork_child child s.runtime }) t
      → process_is_current t.runtime ≡ false
  unfolding after_fork_child
  child_stays_refused s t child held reach =
      holder_is_stale t (Reach-HoldsForkedLeases reach (ground arith, held))
