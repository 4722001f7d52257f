-- ===== src/Runtime/Calls/Effects.antt =====
-- What the calls leave of the module's globals, on a return and on a raise.
use tirtc_client_python.Prelude.{
  ◌≡◌, refl, sym, subst, ap, String, Bool, true, Option, none, some, arith, ◌==◌, if-cases, is_some,
}
use tirtc_client_python.Prelude.Int.{ℤ, pos, negsuc, eqb_ℤ}
use tirtc_client_python.Errors.Action.{Exception, Result, ok, err, Action, pure, ◌>>=◌, ◌>>◌}
use tirtc_client_python.Errors.Outcome.{Outcome, bind-Outcome}
use tirtc_client_python.Runtime.{Configuration, Runtime, check_process, process_is_current}
use tirtc_client_python.Runtime.Native.{Native, GivesHandles}
use tirtc_client_python.Runtime.Leases.{State}
use tirtc_client_python.Runtime.Calls.{
  outside, reads, check_code, file_call, prepare_cache, create, start_rtc, start_storage,
}

abbrev pub Anything : {A : Type 0} → A → Type 0
Anything a = Unit {0}

module _ {N H : Type 0} where
  -- The globals are `r`; and so they are, with more that is known of the value returned.
  abbrev pub Stays : Runtime H → Exception → State N H → Type 0
  Stays r e t = t.runtime ≡ r

  abbrev pub Gives : {A : Type 0} → Runtime H → (A → Type 0) → A → State N H → Type 0
  Gives r G a t = (t.runtime ≡ r) × G a

  -- The call keeps the globals, whatever it comes to, and `G` holds of what it returns.
  abbrev pub Quiet : {A : Type 0} → Runtime H → (A → Type 0) → Result A × State N H → Type 0
  Quiet r G = Outcome (Stays r) (Gives r G)

  abbrev pub at : Runtime H → N → State N H
  at r n = record { runtime = r; world = n }

  pub then-Outcome :
      {A B : Type 0} (r : Runtime H) (G : A → Type 0) (Q : B → State N H → Type 0)
      (m : Action (State N H) A) (f : A → Action (State N H) B) (n : N)
      → Quiet r G (m (at r n))
      → ((a : A) (n' : N) → G a → Outcome (Stays r) Q (f a (at r n')))
      → Outcome (Stays r) Q ((m >>= f) (at r n))
  then-Outcome r G Q m f n h k =
      bind-Outcome (Stays r) (Gives r G) Q m f (at r n) h λ a t (same, g).
        subst (λ q. Outcome (Stays r) Q (f a (at q t.world))) (sym same) (k a t.world g)

eqb→path : (code : ℤ) → eqb_ℤ code (pos 0) ≡ true → code ≡ pos 0
eqb→path (pos n) h = ap pos (ground arith)
eqb→path (negsuc n) h = ground arith

module _ {N H : Type 0} (r : Runtime H) where
  pub weaken :
      {A : Type 0} (G : A → Type 0) (x : Result A × State N H) → Quiet r G x → Quiet r Anything x
  weaken G (ok a, t) (same, g) = (same, tt)
  weaken G (err e, t) same = same

pub weaken_return :
    {N H A : Type 0} (r : Runtime H) (Q P : A → State N H → Type 0) (x : Result A × State N H)
    → ((a : A) (t : State N H) → Q a t → P a t)
    → Outcome (Stays r) Q x
    → Outcome (Stays r) P x
weaken_return r Q P (ok a, t) k q = k a t q
weaken_return r Q P (err e, t) k same = same

module _ {N H : Type 0} (native : Native N H) (r : Runtime H) where
  pub process-Quiet :
      (n : N) → Quiet r (λ _. process_is_current r ≡ true) (reads native check_process (at r n))
  unfolding check_process
  process-Quiet n = ground arith

  pub reads-Quiet :
      {A : Type 0} (f : Result A) (n : N) → Quiet r (λ a. f ≡ ok a) (reads native (λ _. f) (at r n))
  reads-Quiet (ok a) n = (refl, refl)
  reads-Quiet (err e) n = refl

  pub check_code-Quiet :
      (code : ℤ) (n : N)
      → Quiet r (λ _. eqb_ℤ code (pos 0) ≡ true) (check_code native code (at r n))
  unfolding check_code
  check_code-Quiet code n = ground arith

  file_call-Quiet :
      (c : Configuration) (f : N → Bool × N) (n : N)
      → Quiet r Anything (file_call native c f (at r n))
  unfolding file_call
  file_call-Quiet c f n = ground arith

  pub prepare_cache-Quiet :
      (c : Configuration) (n : N) → Quiet r Anything (prepare_cache native c (at r n))
  unfolding prepare_cache
  prepare_cache-Quiet c n =
      then-Outcome r Anything (Gives r Anything)
        (file_call native c (native.make_directory c.cache_dir)
          >> file_call native c (native.create_file c.cache_dir r.pid))
        (λ _. file_call native c (native.remove_file c.cache_dir r.pid)) n
        (then-Outcome r Anything (Gives r Anything)
          (file_call native c (native.make_directory c.cache_dir))
          (λ _. file_call native c (native.create_file c.cache_dir r.pid)) n
          (file_call-Quiet c (native.make_directory c.cache_dir) n)
          λ a n' g. file_call-Quiet c (native.create_file c.cache_dir r.pid) n')
        λ a n' g. file_call-Quiet c (native.remove_file c.cache_dir r.pid) n'

  -- A client with access keys that was created has its handle.
  create-Quiet :
      (f : Configuration → String × String → N → (ℤ × Option H) × N) (c : Configuration)
      (keys : String × String) (n : N)
      → ((f c keys n).0.0 ≡ pos 0 → is_some (f c keys n).0.1 ≡ true)
      → Quiet r (λ h. is_some h ≡ true) (create native f c keys (at r n))
  unfolding create
  create-Quiet f c keys n gives =
      then-Outcome r (λ _. eqb_ℤ (f c keys n).0.0 (pos 0) ≡ true) (Gives r (λ h. is_some h ≡ true))
        (check_code native (f c keys n).0.0) (λ _. pure (f c keys n).0.1) (f c keys n).1
        (check_code-Quiet (f c keys n).0.0 (f c keys n).1)
        λ a n' zero. (refl, gives (eqb→path (f c keys n).0.0 zero))

  pub called-Quiet :
      (f : N → ℤ × N) (n : N) → Quiet r Anything ((outside native f >>= check_code native) (at r n))
  called-Quiet f n =
      then-Outcome r Anything (Gives r Anything) (outside native f) (check_code native) n (refl, tt)
        λ code n' g.
          weaken r (λ _. eqb_ℤ code (pos 0) ≡ true) (check_code native code (at r n'))
            (check_code-Quiet code n')

  -- What the keys say of the handle: without them there is none.
  abbrev pub Handled : Option (String × String) → Option H → Type 0
  Handled none h = h ≡ none
  Handled (some keys) h = is_some h ≡ true

  module _ (gives : GivesHandles native) where
    pub start_rtc-Quiet :
        (c : Configuration) (keys : Option (String × String)) (n : N)
        → Quiet r (Handled keys) (start_rtc native c keys (at r n))
    unfolding start_rtc
    start_rtc-Quiet c (some keys) n =
        create-Quiet native.rtc_client_create c keys n (gives.rtc_handle c keys n)
    start_rtc-Quiet c none n =
        then-Outcome r Anything (Gives r (Handled none))
          (outside native (native.rtc_initialize c) >>= check_code native) (λ _. pure none) n
          (called-Quiet (native.rtc_initialize c) n) λ a n' g. (refl, refl)

    pub start_storage-Quiet :
        (c : Configuration) (keys : Option (String × String)) (n : N)
        → Quiet r (Handled keys) (start_storage native c keys (at r n))
    unfolding start_storage
    start_storage-Quiet c (some keys) n =
        create-Quiet native.storage_client_create c keys n (gives.storage_handle c keys n)
    start_storage-Quiet c none n =
        if-cases (Quiet r (Handled none)) (r.external_count == 0)
          (λ first.
            then-Outcome r Anything (Gives r (Handled none))
              (outside native (native.storage_initialize c) >>= check_code native) (λ _. pure none)
              n (called-Quiet (native.storage_initialize c) n) λ a n' g. (refl, refl))
          λ later. (refl, refl)
