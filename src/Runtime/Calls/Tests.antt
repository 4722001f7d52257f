-- ===== src/Runtime/Calls/Tests.antt =====
-- A native side whose calls succeed, which counts what is started, with runs and the theorems at
-- them. The state of the world is the number of things that run.
use tirtc_client_python.Prelude.{ℕ, suc, ◌+◌, ◌-◌, ◌≡◌, refl, true, false, Option, none, some}
use tirtc_client_python.Prelude.Int.{pos}
use tirtc_client_python.Objects.{Object, none_value, bool, str}
use tirtc_client_python.Errors.{in_use_error}
use tirtc_client_python.Errors.Action.{sdk, ok, err}
use tirtc_client_python.Errors.Outcome.{Outcome}
use tirtc_client_python.Runtime.{
  access_key, external_token, Configuration, loaded, after_fork_child, process_is_current,
}
use tirtc_client_python.Runtime.Options.{ClientOptions, normalize_options}
use tirtc_client_python.Runtime.Native.{Native, GivesHandles}
use tirtc_client_python.Runtime.Leases.{State}
use tirtc_client_python.Runtime.Validity.{IsValid}
use tirtc_client_python.Runtime.Calls.{acquire_rtc, acquire_storage, release}
use tirtc_client_python.Runtime.Calls.Effects.{Stays, at}
use tirtc_client_python.Runtime.Calls.Acquire.{RtcLeased, StorageLeased}
use tirtc_client_python.Runtime.Calls.Results.{
  Leased, ReleaseDone, acquire_rtc-Outcome, acquire_storage-Outcome, release-Outcome,
}
use tirtc_client_python.Runtime.Calls.System.{rtc_acquired, storage_acquired, here, next, imported}
use tirtc_client_python.Runtime.Calls.Invariant.{globals_valid}
use tirtc_client_python.Runtime.Calls.Processes.{child_stays_refused}

abbrev native : Native ℕ ℕ
native = record {
  clock = record { now = λ n. n; sleep = λ k n. n + k };
  error_name = λ code. "error";
  rtc_client_create = λ c keys n. ((pos 0, some 7), suc n);
  rtc_initialize = λ c n. (pos 0, suc n);
  rtc_shutdown = λ n. (pos 0, n - 1);
  storage_client_create = λ c keys n. ((pos 0, some 8), suc n);
  storage_initialize = λ c n. (pos 0, suc n);
  storage_shutdown = λ n. (pos 0, n - 1);
  close = λ h n. (pos 0, n - 1);
  upload_logs = λ n. ((pos 0, "log"), n);
  make_directory = λ path n. (true, n);
  create_file = λ path pid n. (true, n);
  remove_file = λ path pid n. (true, n);
}

abbrev gives : GivesHandles native
gives = record { rtc_handle = λ c keys n h. refl; storage_handle = λ c keys n h. refl }

abbrev fspath : ℕ → Option Object
fspath i = none

abbrev options : Option ClientOptions
options = some (record {
  app_id = str "app";
  cache_dir = str "/var//cache/";
  endpoint = none_value;
  console_log_enabled = bool false;
})

abbrev configuration : Configuration
configuration = record {
  app_id = "app";
  cache_dir = "/var/cache";
  endpoint = none;
  console_log_enabled = false;
}

normalized : normalize_options fspath options ≡ ok configuration
unfolding normalize_options
normalized = refl

abbrev fresh : State ℕ ℕ
unfolding loaded
fresh = imported 100 0

abbrev with_rtc : State ℕ ℕ
unfolding acquire_rtc
with_rtc = (acquire_rtc native fspath options access_key (str "id") (str "secret") fresh).1

abbrev with_both : State ℕ ℕ
unfolding acquire_storage
with_both = (acquire_storage native fspath options external_token none_value none_value with_rtc).1

leased : (with_both.runtime.rtc_lease ≡ some 0) × (with_both.world ≡ 2)
unfolding loaded acquire_rtc acquire_storage
leased = (refl, refl)

second_rtc :
    (acquire_rtc native fspath options external_token none_value none_value with_rtc).0
    ≡ err (sdk in_use_error)
unfolding loaded acquire_rtc in_use_error
second_rtc = refl

globals_valid_example : IsValid with_both.runtime
unfolding loaded acquire_rtc acquire_storage
globals_valid_example = globals_valid native gives fspath 100 0 with_both (
    next (next here (rtc_acquired options access_key (str "id") (str "secret")))
      (storage_acquired options external_token none_value none_value))

acquire_rtc-Outcome_example :
    Outcome
      (Stays fresh.runtime)
      (Leased native fresh.runtime (RtcLeased fresh.runtime) fspath options access_key)
      (acquire_rtc native fspath options access_key (str "id") (str "secret") (at fresh.runtime 0))
acquire_rtc-Outcome_example =
    acquire_rtc-Outcome native fresh.runtime gives fspath options access_key (str "id")
      (str "secret") 0

acquire_storage-Outcome_example :
    Outcome
      (Stays with_rtc.runtime)
      (Leased native with_rtc.runtime
        (StorageLeased with_rtc.runtime)
        fspath
        options
        external_token)
      (acquire_storage native fspath options external_token none_value none_value
        (at with_rtc.runtime 1))
acquire_storage-Outcome_example =
    acquire_storage-Outcome native with_rtc.runtime gives fspath options external_token none_value
      none_value 1

release-Outcome_example :
    Outcome
      (Stays with_both.runtime)
      (ReleaseDone native with_both.runtime 1)
      (release native 1 (at with_both.runtime 2))
release-Outcome_example = release-Outcome native with_both.runtime 1 2

-- The child of a process with a lease.
abbrev child : State ℕ ℕ
unfolding after_fork_child
child = record with_rtc { runtime = after_fork_child 101 with_rtc.runtime }

child_stays_refused_example : process_is_current child.runtime ≡ false
unfolding loaded acquire_rtc after_fork_child
child_stays_refused_example = child_stays_refused native fspath with_rtc child 101 refl here

-- A fork by another thread inside `_acquire_rtc`, after the write of `_rtc_lease` and before that of
-- `_active_leases`: the child may use the module, and finds an RTC lease that nobody can release.
abbrev torn : State ℕ ℕ
unfolding after_fork_child
torn = record fresh { runtime = after_fork_child 101 (record fresh.runtime { rtc_lease = some 0 }) }

torn_current : process_is_current torn.runtime ≡ true
unfolding loaded after_fork_child process_is_current
torn_current = refl

torn_in_use :
    (acquire_rtc native fspath options access_key (str "id") (str "secret") torn).0
    ≡ err (sdk in_use_error)
unfolding loaded after_fork_child acquire_rtc in_use_error
torn_in_use = refl
