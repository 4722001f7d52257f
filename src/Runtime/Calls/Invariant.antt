-- ===== src/Runtime/Calls/Invariant.antt =====
-- Every call keeps the globals valid, so they are so in every state of the process.
use tirtc_client_python.Prelude.{
  ℕ, ◌≡◌, inl, inr, sym, subst, Bool, true, not, is_empty, Option, some, arith, if◌then◌else◌,
  is_some,
}
use tirtc_client_python.Objects.{Object}
use tirtc_client_python.Errors.Action.{Result, ok, err}
use tirtc_client_python.Errors.Outcome.{Outcome}
use tirtc_client_python.Runtime.{
  Mode, access_key, external_token, Configuration, Runtime, loaded, mark_finalizing,
  after_fork_child,
}
use tirtc_client_python.Runtime.Native.{Native, GivesHandles}
use tirtc_client_python.Runtime.Leases.{
  State, find, shared_agrees, is_external, add_rtc, add_storage, drop_lease,
}
use tirtc_client_python.Runtime.Lookup.{find-id}
use tirtc_client_python.Runtime.Validity.{IsValid, loaded-IsValid, add_rtc-IsValid}
use tirtc_client_python.Runtime.Updates.{
  add_external-IsValid, add_keyed-IsValid, drop_lease-IsValid,
}
use tirtc_client_python.Runtime.Calls.{acquire_rtc, acquire_storage, release, upload_logs}
use tirtc_client_python.Runtime.Calls.Effects.{Stays, Gives}
use tirtc_client_python.Runtime.Calls.Acquire.{RtcLeased, StorageLeased, external_fits}
use tirtc_client_python.Runtime.Calls.Results.{
  Leased, ReleaseDone, IsUsable, Released, acquire_rtc-Outcome, acquire_storage-Outcome,
  release-Outcome, upload_logs-Outcome,
}
use tirtc_client_python.Runtime.Calls.System.{
  Step, rtc_acquired, storage_acquired, released, uploaded, finalizes, forks, elsewhere, Reach,
  here, next, imported,
}

module _ {H : Type 0} where
  transport : (r q : Runtime H) → r ≡ q → IsValid q → IsValid r
  transport r q same valid = subst IsValid (sym same) valid

  storage_added :
      (r : Runtime H) (mode : Mode) (c : Configuration) (h : Option H)
      → IsValid r
      → shared_agrees r.shared c ≡ true
      → external_fits mode r.external_configuration c ≡ true
      → (if is_external mode then true else is_some h) ≡ true
      → IsValid (add_storage mode c h r)
  storage_added r access_key c h valid agrees fits handled =
      add_keyed-IsValid r valid c h agrees handled
  storage_added r external_token c h valid agrees fits handled =
      add_external-IsValid r valid c h agrees fits

  -- Validity does not look at the fields of the process.
  refit :
      (r : Runtime H) (process_id pid : ℕ) (forked finalizing : Bool)
      → IsValid r
      → IsValid (record r {
        process_id = process_id;
        pid = pid;
        forked_with_runtime = forked;
        finalizing = finalizing;
      })
  refit r process_id pid forked finalizing valid = record {
    one_rtc = valid.one_rtc;
    external_counted = valid.external_counted;
    external_set = valid.external_set;
    external_same = valid.external_same;
    shared_set = valid.shared_set;
    shared_same = valid.shared_same;
    fresh = valid.fresh;
    distinct = valid.distinct;
    not_closed = valid.not_closed;
    closed_before = valid.closed_before;
    has_handles = valid.has_handles;
  }

  process-IsValid :
      (child : ℕ) (r : Runtime H)
      → IsValid r
      → IsValid (mark_finalizing r) × IsValid (after_fork_child child r)
  unfolding mark_finalizing after_fork_child
  process-IsValid child r valid = (
    refit r r.process_id r.pid r.forked_with_runtime true valid,
    refit r child child (not (is_empty r.active)) r.finalizing valid,
  )

module _ {N H : Type 0} where
  abbrev IsValidState : State N H → Type 0
  IsValidState s = IsValid s.runtime

  -- What a call leaves is valid where what it returned with is.
  after :
      {A : Type 0} (r : Runtime H) (Q : A → State N H → Type 0) (x : Result A × State N H)
      → IsValid r
      → Outcome (Stays r) Q x
      → ((a : A) (t : State N H) → Q a t → IsValid t.runtime)
      → IsValid x.1.runtime
  after r Q (ok a, t) valid q k = k a t q
  after r Q (err e, t) valid same k = transport t.runtime r same valid

  rtc_leased :
      (r : Runtime H) (mode : Mode) (c : Configuration) (i : ℕ) (t : State N H)
      → IsValid r
      → RtcLeased r mode c i t
      → IsValid t.runtime
  rtc_leased r mode c i t valid l =
      transport t.runtime (add_rtc mode c l.handle r) l.globals
        (add_rtc-IsValid r valid c mode l.handle l.agrees l.handled (ground (arith, l.idle)))

  storage_leased :
      (r : Runtime H) (mode : Mode) (c : Configuration) (i : ℕ) (t : State N H)
      → IsValid r
      → StorageLeased r mode c i t
      → IsValid t.runtime
  storage_leased r mode c i t valid l =
      transport t.runtime (add_storage mode c l.handle r) l.globals
        (storage_added r mode c l.handle valid l.agrees l.fits l.handled)

module _ {N H : Type 0} (native : Native N H) (gives : GivesHandles native)
    (fspath : ℕ → Option Object) where
  was_released :
      (r : Runtime H) (i : ℕ) (t : State N H)
      → IsValid r
      → Released native r i t
      → IsValid t.runtime
  was_released r i t valid (inl (is_closed, same)) = transport t.runtime r same valid
  was_released r i t valid (inr (l, found, same)) = transport t.runtime (drop_lease l r) same (
      drop_lease-IsValid r valid l
        (subst (λ j. find j r.active ≡ some l) (sym (find-id i r.active l found)) found))

  Step-IsValid : {s t : State N H} → Step native fspath s t → IsValid s.runtime → IsValid t.runtime
  Step-IsValid {s = s} (rtc_acquired options mode key_id secret) valid =
      after s.runtime (Leased native s.runtime (RtcLeased s.runtime) fspath options mode)
        (acquire_rtc native fspath options mode key_id secret s) valid
        (acquire_rtc-Outcome native s.runtime gives fspath options mode key_id secret s.world)
        λ i t (current, c, normal, l). rtc_leased s.runtime mode c i t valid l
  Step-IsValid {s = s} (storage_acquired options mode key_id secret) valid =
      after s.runtime (Leased native s.runtime (StorageLeased s.runtime) fspath options mode)
        (acquire_storage native fspath options mode key_id secret s) valid
        (acquire_storage-Outcome native s.runtime gives fspath options mode key_id secret s.world)
        λ i t (current, c, normal, l). storage_leased s.runtime mode c i t valid l
  Step-IsValid {s = s} (released i) valid =
      after s.runtime (ReleaseDone native s.runtime i) (release native i s) valid
        (release-Outcome native s.runtime i s.world)
        λ a t (current, r). was_released s.runtime i t valid r
  Step-IsValid {s = s} (uploaded i) valid =
      after s.runtime (Gives s.runtime (λ _. IsUsable native s.runtime i)) (upload_logs native i s)
        valid (upload_logs-Outcome native s.runtime i s.world)
        λ a t (same, usable). transport t.runtime s.runtime same valid
  Step-IsValid {s = s} finalizes valid = (process-IsValid 0 s.runtime valid).0
  Step-IsValid {s = s} (forks child) valid = (process-IsValid child s.runtime valid).1
  Step-IsValid {s = s} (elsewhere n) valid = valid

  Reach-IsValid :
      {s t : State N H} → Reach native fspath s t → IsValid s.runtime → IsValid t.runtime
  Reach-IsValid here valid = valid
  Reach-IsValid (next r step) valid = Step-IsValid step (Reach-IsValid r valid)

  -- Given that native code gives a handle with every client it creates: after any calls, by any
  -- threads, and any forks that are made while no thread is inside the module's lock, the globals
  -- of the module are those of its active leases. At most one
  -- is for RTC, and `_rtc_lease` is set just then; `_external_storage_count` is the number of
  -- external-token storage leases, which all agree with the one stored configuration; all leases
  -- agree with the shared one, which is there just while there are leases; no identity is active
  -- twice; no active lease is closed; and one with access keys has its handle.
  pub globals_valid :
      (pid : ℕ) (n : N) (s : State N H) → Reach native fspath (imported pid n) s → IsValid s.runtime
  unfolding loaded
  globals_valid pid n s reach = Reach-IsValid reach (loaded-IsValid pid)
