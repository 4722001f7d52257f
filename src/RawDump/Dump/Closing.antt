-- ===== src/RawDump/Dump/Closing.antt =====
-- A dump is stopped once, and closed with what stopping it came to.
use tirtc_client_python.Prelude.{
  ◌≡◌, ◌⊎◌, inl, inr, refl, subst, ap, ◌∙◌, is_some, true, false, Option, none, some, arith,
  if◌then◌else◌, if-cases,
}
use tirtc_client_python.Prelude.Int.{ℤ}
use tirtc_client_python.Errors.{closed_error}
use tirtc_client_python.Errors.Outcome.{Outcome, bind-Outcome}
use tirtc_client_python.Errors.Action.{sdk, Exception, Result, ok, err}
use tirtc_client_python.Util.Retry.{Clock, retry_in_use_result}
use tirtc_client_python.RawDump.Dump.{
  RawDumpArchive, Stopped, Dump, check, stop_now, stop_kept, stop, after_retry, close_native,
  finish, close_open, close,
}

module _ {N : Type 0} (clock : Clock N) (code_error : ℤ → Exception)
    (raw_dump_stop : N → Stopped × N) (native_close : N → ℤ × N) where
  abbrev Stop : Dump N → Result RawDumpArchive × Dump N
  Stop d = stop clock code_error raw_dump_stop native_close (ok tt) false d

  -- What `stop` leaves: `closed` and the parent as they were, and the archive where it returned.
  abbrev Left : Dump N → Result RawDumpArchive × Dump N → Type 0
  Left d =
      Outcome (λ e t. (t.closed ≡ d.closed) × (t.parent ≡ d.parent))
        λ a t.
          (t.closed ≡ d.closed) × (t.parent ≡ d.parent) × (t.archive ≡ some a) × (t.closed ≡ false)

  stop_kept-Left :
      (d : Dump N) (o : Option RawDumpArchive)
      → d.closed ≡ false
      → d.archive ≡ o
      → Left d (stop_kept clock code_error raw_dump_stop native_close o d)
  unfolding stop_kept stop_now check
  stop_kept-Left d none is_open kept = ground arith
  stop_kept-Left d (some a) is_open kept = (refl, refl, kept, is_open)

  stop-Left : (d : Dump N) → Left d (Stop d)
  unfolding stop
  stop-Left d =
      if-cases (Left d) d.closed (λ is_closed. (refl, refl))
        λ is_open. stop_kept-Left d d.archive is_open refl

  again :
      (e : Dump N) (archive : RawDumpArchive)
      → e.archive ≡ some archive
      → e.closed ≡ false
      → Stop e ≡ (ok archive, e)
  unfolding stop stop_kept
  again e archive kept is_open =
      ap
        (λ b.
          if b
          then (err (sdk closed_error), e)
          else stop_kept clock code_error raw_dump_stop native_close e.archive e)
        is_open
      ∙ ap (λ o. stop_kept clock code_error raw_dump_stop native_close o e) kept

  -- Where `stop` returned an archive, every later `stop` that is not refused returns the same one,
  -- without a native call and with nothing changed.
  pub stop_is_stable :
      (d e : Dump N) (archive : RawDumpArchive)
      → stop clock code_error raw_dump_stop native_close (ok tt) false d ≡ (ok archive, e)
      → stop clock code_error raw_dump_stop native_close (ok tt) false e ≡ (ok archive, e)
  stop_is_stable d e archive h =
      let (closed, parent, kept, is_open) = subst (Left d) h (stop-Left d) in
      again e archive kept is_open

  -- What `close` comes to: it raised with the dump still open, or closed it.
  abbrev pub Closes : Dump N → Result (Unit {0}) × Dump N → Type 0
  Closes d =
      Outcome
        (λ x t.
          (t.closed ≡ false) ⊎ ((t.closed ≡ true) × (t.parent ≡ false) × ((Stop d).0 ≡ err x)))
        λ u t. (t.closed ≡ true) × (t.parent ≡ false) × (is_some t.archive ≡ true)

  finish-Closes :
      (d : Dump N) (x : Result RawDumpArchive) (e f : Dump N)
      → Stop d ≡ (x, e)
      → f.archive ≡ e.archive
      → Closes d (finish clock code_error raw_dump_stop native_close x f)
  unfolding finish
  finish-Closes d (ok a) e f h same =
      let (closed, parent, kept, is_open) = subst (Left d) h (stop-Left d) in
      (refl, refl, ap is_some (same ∙ kept))
  finish-Closes d (err y) e f h same = inr (refl, refl, ap (λ p. p.0) h)

  after_retry-Keeps :
      (e : Dump N) (o : Option (Result ℤ × N))
      → Outcome
          (λ x t. (t.closed ≡ e.closed) × (t.archive ≡ e.archive))
          (λ u t. (t.closed ≡ e.closed) × (t.archive ≡ e.archive))
          (after_retry clock code_error raw_dump_stop native_close o e)
  unfolding after_retry check
  after_retry-Keeps e none = (refl, refl)
  after_retry-Keeps e (some (err x, n)) = (refl, refl)
  after_retry-Keeps e (some (ok code, n)) = ground arith

  close_native-Keeps :
      (e : Dump N)
      → Outcome
          (λ x t. (t.closed ≡ e.closed) × (t.archive ≡ e.archive))
          (λ u t. (t.closed ≡ e.closed) × (t.archive ≡ e.archive))
          (close_native clock code_error raw_dump_stop native_close e)
  unfolding close_native
  close_native-Keeps e =
      after_retry-Keeps e (retry_in_use_result clock (λ c. c) native_close 5_000_000 e.world)

  abbrev Raises : Dump N → Exception → Dump N → Type 0
  Raises d x t =
      (t.closed ≡ false) ⊎ ((t.closed ≡ true) × (t.parent ≡ false) × ((Stop d).0 ≡ err x))

  as_raise :
      (d e : Dump N) (y : Result (Unit {0}) × Dump N)
      → e.closed ≡ false
      → Outcome
          (λ x t. (t.closed ≡ e.closed) × (t.archive ≡ e.archive))
          (λ u t. (t.closed ≡ e.closed) × (t.archive ≡ e.archive))
          y
      → Outcome (Raises d) (λ u t. t.archive ≡ e.archive) y
  as_raise d e (ok u, t) is_open (closed, archive) = archive
  as_raise d e (err x, t) is_open (closed, archive) = inl (closed ∙ is_open)

  closed_as_before :
      (d : Dump N) (y : Result RawDumpArchive × Dump N) → Left d y → y.1.closed ≡ d.closed
  closed_as_before d (ok a, t) (closed, parent, kept, is_open) = closed
  closed_as_before d (err x, t) (closed, parent) = closed

  close_open-Closes :
      (d : Dump N) (x : Result RawDumpArchive) (e : Dump N)
      → Stop d ≡ (x, e)
      → e.closed ≡ false
      → Closes d (close_open clock code_error raw_dump_stop native_close x e)
  unfolding close_open
  close_open-Closes d x e h is_open =
      bind-Outcome (Raises d) (λ u t. t.archive ≡ e.archive) _
        (close_native clock code_error raw_dump_stop native_close)
        (λ _. finish clock code_error raw_dump_stop native_close x) e
        (as_raise d e (close_native clock code_error raw_dump_stop native_close e) is_open
          (close_native-Keeps e))
        λ u f same. finish-Closes d x e f h same

  -- `close` of an open dump, in a process and by a caller that are not refused, either raises and
  -- leaves the dump open; or it closes the dump and lets go of the parent. In that case it returns
  -- only with an archive kept, and raises only what stopping the dump raised.
  pub close-Closes :
      (d : Dump N)
      → d.closed ≡ false
      → Closes d (close clock code_error raw_dump_stop native_close (ok tt) false d)
  unfolding close
  close-Closes d is_open =
      if-cases (Closes d) d.closed (λ is_closed. ground (arith, is_closed, is_open))
        λ still_open.
          close_open-Closes d (Stop d).0 (Stop d).1 refl
            (closed_as_before d (Stop d) (stop-Left d) ∙ is_open)
