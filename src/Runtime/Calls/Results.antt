-- ===== src/Runtime/Calls/Results.antt =====
-- What `_acquire_rtc` and `_acquire_storage` come to with their arguments checked, and what
-- `_release` and `_upload_logs` come to.
use tirtc_client_python.Prelude.{
  ℕ, ◌≡◌, ◌⊎◌, inl, inr, refl, String, true, false, not, Option, none, some, arith, ◌==◌,
  if◌then◌else◌, if-cases, is_some,
}
use tirtc_client_python.Prelude.Int.{ℤ, pos, eqb_ℤ}
use tirtc_client_python.Util.Retry.{close_handle_code}
use tirtc_client_python.Objects.{Object}
use tirtc_client_python.Errors.{closed_error}
use tirtc_client_python.Errors.Action.{sdk, ok, Action, pure, raise_if, ◌>>=◌, ◌>>◌}
use tirtc_client_python.Errors.Outcome.{Outcome}
use tirtc_client_python.Runtime.{
  Product, rtc, storage, Mode, access_key, external_token, Configuration, Lease, Runtime,
  check_process, process_is_current,
}
use tirtc_client_python.Runtime.Options.{ClientOptions, normalize_options}
use tirtc_client_python.Runtime.Native.{Native, GivesHandles}
use tirtc_client_python.Runtime.Leases.{State, find, drop_lease}
use tirtc_client_python.Runtime.Calls.{
  Call, reads, outside, change, check_code, credentials, rtc_locked, storage_locked, acquire,
  acquire_rtc, acquire_storage, close_code, close_handle, close_stored, stop_native, release_found,
  release, upload_logs,
}
use tirtc_client_python.Runtime.Calls.Effects.{
  Stays, Gives, Quiet, Anything, at, then-Outcome, process-Quiet, reads-Quiet, check_code-Quiet,
  called-Quiet, weaken, weaken_return,
}
use tirtc_client_python.Runtime.Calls.Acquire.{
  RtcLeased, StorageLeased, Fits, credentials-Fits, rtc_locked-Outcome, storage_locked-Outcome,
}

module _ {N H : Type 0} (native : Native N H) (r : Runtime H) where
  -- What is known where acquiring a lease returned: `L` holds of it at the configuration that the
  -- options are normalised to.
  abbrev pub Leased :
      (Mode → Configuration → ℕ → State N H → Type 0)
      → (ℕ → Option Object)
      → Option ClientOptions
      → Mode
      → ℕ
      → State N H
      → Type 0
  Leased L fspath options mode i t =
      (process_is_current r ≡ true)
      × (c : Configuration) × (normalize_options fspath options ≡ ok c)
      × L mode c i t

  module _ (fspath : ℕ → Option Object) where
    -- What holds of a lease with the configuration that the arguments are normalised to.
    acquire-Outcome :
        (L : Mode → Configuration → ℕ → State N H → Type 0)
        (locked : Mode → Configuration → Option (String × String) → Call native ℕ)
        → ((mode : Mode) (c : Configuration) (keys : Option (String × String)) (n : N)
            → Fits mode keys
            → Outcome (Stays r) (L mode c) (locked mode c keys (at r n)))
        → (options : Option ClientOptions) (mode : Mode) (key_id secret : Object) (n : N)
        → Outcome
            (Stays r)
            (Leased L fspath options mode)
            (acquire native fspath locked options mode key_id secret (at r n))
    unfolding acquire
    acquire-Outcome L locked each options mode key_id secret n =
        then-Outcome r (λ _. process_is_current r ≡ true) _ (reads native check_process)
          (λ _. reads native (λ r. normalize_options fspath options) >>= λ c.
            reads native (λ r. credentials mode key_id secret) >>= λ keys. locked mode c keys)
          n (process-Quiet native r n)
          λ a n' current.
            then-Outcome r (λ c. normalize_options fspath options ≡ ok c) _
              (reads native (λ r. normalize_options fspath options))
              (λ c.
                reads native (λ r. credentials mode key_id secret) >>= λ keys. locked mode c keys)
              n' (reads-Quiet native r (normalize_options fspath options) n')
              λ c n'' normal.
                then-Outcome r (λ keys. credentials mode key_id secret ≡ ok keys) _
                  (reads native (λ r. credentials mode key_id secret)) (λ keys. locked mode c keys)
                  n'' (reads-Quiet native r (credentials mode key_id secret) n'')
                  λ keys n''' given.
                    weaken_return r (L mode c) _ _ (λ i t l. (current, c, normal, l))
                      (each mode c keys n''' (credentials-Fits mode key_id secret keys given))

  module _ (gives : GivesHandles native) (fspath : ℕ → Option Object) where
    -- Given that native code gives a handle with every client it creates: where `_acquire_rtc`
    -- returns, the process is the current one, the options were normalised, there was no RTC lease,
    -- the shared configuration agreed, with access keys there is a handle, and the globals are those
    -- from before with the new lease added. Where it raises, none of the globals has changed.
    pub acquire_rtc-Outcome :
        (options : Option ClientOptions) (mode : Mode) (key_id secret : Object) (n : N)
        → Outcome
            (Stays r)
            (Leased (RtcLeased r) fspath options mode)
            (acquire_rtc native fspath options mode key_id secret (at r n))
    unfolding acquire_rtc
    acquire_rtc-Outcome =
        acquire-Outcome fspath (RtcLeased r) (rtc_locked native) (rtc_locked-Outcome native gives r)

    -- Given the same of native code: where `_acquire_storage` returns, the process is the current
    -- one, the options were normalised, the shared configuration agreed and for an external token
    -- that of the external storage leases too, with access keys there is a handle, and the globals
    -- are those from before with the new lease added. Where it raises, none of them has changed.
    pub acquire_storage-Outcome :
        (options : Option ClientOptions) (mode : Mode) (key_id secret : Object) (n : N)
        → Outcome
            (Stays r)
            (Leased (StorageLeased r) fspath options mode)
            (acquire_storage native fspath options mode key_id secret (at r n))
    unfolding acquire_storage
    acquire_storage-Outcome =
        acquire-Outcome fspath (StorageLeased r) (storage_locked native)
          (storage_locked-Outcome native gives r)

  close_code-Quiet : (o : Option (ℤ × N)) (n : N) → Quiet r Anything (close_code native o (at r n))
  unfolding close_code
  close_code-Quiet none n = refl
  close_code-Quiet (some (code, n')) n =
      weaken r (λ _. eqb_ℤ code (pos 0) ≡ true) (check_code native code (at r n'))
        (check_code-Quiet native r code n')

  close_stored-Quiet : (h : Option H) (n : N) → Quiet r Anything (close_stored native h (at r n))
  unfolding close_stored close_handle
  close_stored-Quiet none n = refl
  close_stored-Quiet (some h) n =
      close_code-Quiet (close_handle_code native.clock (native.close h) n) n

  stop_native-Quiet :
      (product : Product) (mode : Mode) (i : ℕ) (n : N)
      → Quiet r Anything (stop_native native product mode i (at r n))
  unfolding stop_native
  stop_native-Quiet product access_key i n = close_stored-Quiet (r.handle i) n
  stop_native-Quiet rtc external_token i n = called-Quiet native r native.rtc_shutdown n
  stop_native-Quiet storage external_token i n =
      if-cases (Quiet r Anything) (r.external_count == 0) (λ none_left. refl)
        λ some_left.
          if-cases (Quiet r Anything) (r.external_count == 1)
            (λ last. called-Quiet native r native.storage_shutdown n) λ more. (refl, tt)

  -- A lease that is released is closed already, or it is taken out of the active ones.
  abbrev pub Released : ℕ → State N H → Type 0
  Released i t =
      ((r.closed i ≡ true) × (t.runtime ≡ r))
      ⊎ ((l : Lease) × (find i r.active ≡ some l) × (t.runtime ≡ drop_lease l r))

  abbrev pub ReleaseDone : ℕ → Unit {0} → State N H → Type 0
  ReleaseDone i a t = (process_is_current r ≡ true) × Released i t

  abbrev pub IsUsable : ℕ → Type 0
  IsUsable i =
      (process_is_current r ≡ true) × (r.closed i ≡ false) × (is_some (find i r.active) ≡ true)

  release_found-Outcome :
      (i : ℕ) (o : Option Lease) (n : N)
      → find i r.active ≡ o
      → Outcome (Stays r) (λ _. Released i) (release_found native o (at r n))
  unfolding release_found
  release_found-Outcome i none n found = refl
  release_found-Outcome i (some l) n found =
      then-Outcome r Anything (λ _. Released i) (stop_native native l.product l.mode l.id)
        (λ _. change native (drop_lease l)) n (stop_native-Quiet l.product l.mode l.id n)
        λ a n' g. inr (l, found, refl)

  -- Where `_release` returns, the process is the current one and either the lease was closed already
  -- and nothing has changed, or it was active and the globals are those from before without it.
  -- Where it raises, none of the globals has changed.
  pub release-Outcome :
      (i : ℕ) (n : N) → Outcome (Stays r) (ReleaseDone i) (release native i (at r n))
  unfolding release
  release-Outcome i n =
      then-Outcome r (λ _. process_is_current r ≡ true) _ (reads native check_process)
        (λ _ s.
          if s.runtime.closed i
          then pure tt s
          else release_found native (find i s.runtime.active) s)
        n (process-Quiet native r n)
        λ a n' current.
          if-cases (Outcome (Stays r) (ReleaseDone i)) (r.closed i)
            (λ is_closed. (current, inl (is_closed, refl)))
            λ is_open.
              weaken_return r (λ _. Released i) _ _ (λ b t released. (current, released))
                (release_found-Outcome i (find i r.active) n' refl)

  pub upload_logs-Outcome :
      (i : ℕ) (n : N) → Quiet r (λ _. IsUsable i) (upload_logs native i (at r n))
  unfolding upload_logs
  upload_logs-Outcome i n =
      let Usable : Type 0 =
        (process_is_current r ≡ true) × (r.closed i ≡ false) × (is_some (find i r.active) ≡ true) in
      let guard : Action (State N H) (Unit {0}) = λ s.
        raise_if (if s.runtime.closed i then true else not (is_some (find i s.runtime.active)))
          (sdk closed_error) s in
      let sent : Call native String = outside native native.upload_logs >>= λ (code, log_id).
      check_code native code >> pure log_id in
      then-Outcome r (λ _. Usable) (Gives r (λ _. Usable)) (reads native check_process >> guard)
        (λ _. sent) n
        (then-Outcome r (λ _. process_is_current r ≡ true) (Gives r (λ _. Usable))
          (reads native check_process) (λ _. guard) n (process-Quiet native r n)
          λ a n' current. ground arith)
        λ a n' usable.
          then-Outcome r (λ _. eqb_ℤ (native.upload_logs n').0.0 (pos 0) ≡ true)
            (Gives r (λ _. Usable)) (check_code native (native.upload_logs n').0.0)
            (λ _. pure (native.upload_logs n').0.1) (native.upload_logs n').1
            (check_code-Quiet native r (native.upload_logs n').0.0 (native.upload_logs n').1)
            λ b n'' zero. (refl, usable)
