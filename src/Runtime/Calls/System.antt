-- ===== src/Runtime/Calls/System.antt =====
-- The calls in any order, by any threads, and what else happens to the process.
use tirtc_client_python.Prelude.{ℕ, Option}
use tirtc_client_python.Objects.{Object}
use tirtc_client_python.Runtime.{Mode, loaded, mark_finalizing, after_fork_child}
use tirtc_client_python.Runtime.Options.{ClientOptions}
use tirtc_client_python.Runtime.Native.{Native}
use tirtc_client_python.Runtime.Leases.{State}
use tirtc_client_python.Runtime.Calls.{acquire_rtc, acquire_storage, release, upload_logs}

module _ {N H : Type 0} (native : Native N H) (fspath : ℕ → Option Object) where
  -- `elsewhere` is what native code does besides these calls. After `forks` the state is the
  -- child's; the fork is made while no thread is inside the module's lock, which a fork does not
  -- take, so that one inside a call is left out.
  pub data Step (s : State N H) : State N H → Type 0 where
    rtc_acquired :
        (options : Option ClientOptions) (mode : Mode) (key_id secret : Object)
        → Step s (acquire_rtc native fspath options mode key_id secret s).1
    storage_acquired :
        (options : Option ClientOptions) (mode : Mode) (key_id secret : Object)
        → Step s (acquire_storage native fspath options mode key_id secret s).1
    released : (i : ℕ) → Step s (release native i s).1
    uploaded : (i : ℕ) → Step s (upload_logs native i s).1
    finalizes : Step s (record s { runtime = mark_finalizing s.runtime })
    forks : (child : ℕ) → Step s (record s { runtime = after_fork_child child s.runtime })
    elsewhere : (n : N) → Step s (record s { world = n })

  pub data Reach (s : State N H) : State N H → Type 0 where
    here : Reach s s
    next : {t u : State N H} → Reach s t → Step t u → Reach s u

module _ {N H : Type 0} where
  abbrev pub imported : ℕ → N → State N H
  unfolding loaded
  imported pid n = record { runtime = loaded pid; world = n }
