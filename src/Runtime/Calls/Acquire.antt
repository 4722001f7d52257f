-- ===== src/Runtime/Calls/Acquire.antt =====
-- What acquiring a lease comes to.
use tirtc_client_python.Prelude.{
  ℕ, ◌≡◌, refl, String, Bool, true, false, not, Option, none, some, arith, if◌then◌else◌, is_some,
}
use tirtc_client_python.Objects.{Object}
use tirtc_client_python.Errors.Action.{sdk, Result, ok, err, Action, raise_if, ◌>>=◌, ◌>>◌}
use tirtc_client_python.Errors.Outcome.{Outcome}
use tirtc_client_python.Errors.{in_use_error}
use tirtc_client_python.Runtime.{Mode, access_key, external_token, Configuration, Runtime}
use tirtc_client_python.Runtime.Native.{Native, GivesHandles}
use tirtc_client_python.Runtime.Leases.{
  State, shared_agrees, external_agrees, is_external, external_error, add_rtc, add_storage,
}
use tirtc_client_python.Runtime.Calls.{
  credentials, preflight_shared, prepare_cache, start_rtc, start_storage, add, rtc_locked,
  storage_locked,
}
use tirtc_client_python.Runtime.Calls.Effects.{
  Stays, Quiet, at, then-Outcome, prepare_cache-Quiet, Handled, start_rtc-Quiet,
  start_storage-Quiet,
}

abbrev pub external_fits : Mode → Option (String × Option String) → Configuration → Bool
external_fits mode o c = if is_external mode then external_agrees o c else true

-- A lease on RTC with identity `i` was added, and there was none.
pub record RtcLeased {N H : Type 0} (r : Runtime H) (mode : Mode) (c : Configuration) (i : ℕ)
    (t : State N H) : Type 0 where
  pub handle : Option H
  pub idle : is_some r.rtc_lease ≡ false
  pub agrees : shared_agrees r.shared c ≡ true
  pub handled : (if is_external mode then true else is_some handle) ≡ true
  pub identity : i ≡ r.next_id
  pub globals : t.runtime ≡ add_rtc mode c handle r

pub record StorageLeased {N H : Type 0} (r : Runtime H) (mode : Mode) (c : Configuration) (i : ℕ)
    (t : State N H) : Type 0 where
  pub handle : Option H
  pub agrees : shared_agrees r.shared c ≡ true
  pub fits : external_fits mode r.external_configuration c ≡ true
  pub handled : (if is_external mode then true else is_some handle) ≡ true
  pub identity : i ≡ r.next_id
  pub globals : t.runtime ≡ add_storage mode c handle r

abbrev pub Fits : Mode → Option (String × String) → Type 0
Fits mode keys = is_some keys ≡ not (is_external mode)

pub credentials-Fits :
    (mode : Mode) (key_id secret : Object) (keys : Option (String × String))
    → credentials mode key_id secret ≡ ok keys
    → Fits mode keys
unfolding credentials
credentials-Fits access_key key_id secret keys h = ground arith
credentials-Fits external_token key_id secret keys h = ground arith

-- What follows from what a quiet call gives.
pub follows :
    {N H A : Type 0} (r : Runtime H) (G K : Type 0) (x : Result A × State N H)
    → (G → K)
    → Quiet r (λ _. G) x
    → Quiet r (λ _. K) x
follows r G K (ok a, t) k (same, g) = (same, k g)
follows r G K (err e, t) k same = same

module _ {N H : Type 0} (native : Native N H) (gives : GivesHandles native) (r : Runtime H) where
  Handled-is_some :
      (mode : Mode) (keys : Option (String × String)) (h : Option H)
      → Fits mode keys
      → Handled native r keys h
      → (if is_external mode then true else is_some h) ≡ true
  Handled-is_some access_key none h f k = ground arith
  Handled-is_some access_key (some keys) h f k = k
  Handled-is_some external_token keys h f k = refl

  preflight-Quiet :
      (c : Configuration) (n : N)
      → Quiet r (λ _. shared_agrees r.shared c ≡ true) (preflight_shared native c (at r n))
  unfolding preflight_shared
  preflight-Quiet c n = ground arith

  pub rtc_locked-Outcome :
      (mode : Mode) (c : Configuration) (keys : Option (String × String)) (n : N)
      → Fits mode keys
      → Outcome (Stays r) (RtcLeased r mode c) (rtc_locked native mode c keys (at r n))
  unfolding rtc_locked
  rtc_locked-Outcome mode c keys n fits =
      then-Outcome r (λ _. (is_some r.rtc_lease ≡ false) × (shared_agrees r.shared c ≡ true))
        (RtcLeased r mode c)
        ((λ s. raise_if (is_some s.runtime.rtc_lease) (sdk in_use_error) s)
          >> preflight_shared native c
          >> prepare_cache native c)
        (λ _. start_rtc native c keys >>= add native (add_rtc mode) c) n
        (then-Outcome r (λ _. (is_some r.rtc_lease ≡ false) × (shared_agrees r.shared c ≡ true)) _
          ((λ s. raise_if (is_some s.runtime.rtc_lease) (sdk in_use_error) s)
            >> preflight_shared native c)
          (λ _. prepare_cache native c) n
          (then-Outcome r (λ _. is_some r.rtc_lease ≡ false) _
            (λ s. raise_if (is_some s.runtime.rtc_lease) (sdk in_use_error) s)
            (λ _. preflight_shared native c) n (ground arith)
            λ a n' idle.
              follows r (shared_agrees r.shared c ≡ true) _ _ (λ agrees. (idle, agrees))
                (preflight-Quiet c n'))
          λ a n' facts. follows r Unit _ _ (λ u. facts) (prepare_cache-Quiet native r c n'))
        λ a n' (idle, agrees).
          then-Outcome r (Handled native r keys) (RtcLeased r mode c) (start_rtc native c keys)
            (add native (add_rtc mode) c) n' (start_rtc-Quiet native r gives c keys n')
            λ h n'' handled. record {
              handle = h;
              idle = idle;
              agrees = agrees;
              handled = Handled-is_some mode keys h fits handled;
              identity = refl;
              globals = refl;
            }

  pub storage_locked-Outcome :
      (mode : Mode) (c : Configuration) (keys : Option (String × String)) (n : N)
      → Fits mode keys
      → Outcome (Stays r) (StorageLeased r mode c) (storage_locked native mode c keys (at r n))
  unfolding storage_locked
  storage_locked-Outcome mode c keys n fits =
      let external_check : Action (State N H) (Unit {0}) = λ s.
        raise_if
          (if is_external mode
            then not (external_agrees s.runtime.external_configuration c)
            else false)
          (sdk external_error) s in
      then-Outcome r
        (λ _.
          (shared_agrees r.shared c ≡ true)
          × (external_fits mode r.external_configuration c ≡ true))
        (StorageLeased r mode c)
        (preflight_shared native c >> external_check >> prepare_cache native c)
        (λ _. start_storage native c keys >>= add native (add_storage mode) c) n
        (then-Outcome r
          (λ _.
            (shared_agrees r.shared c ≡ true)
            × (external_fits mode r.external_configuration c ≡ true))
          _ (preflight_shared native c >> external_check) (λ _. prepare_cache native c) n
          (then-Outcome r (λ _. shared_agrees r.shared c ≡ true) _ (preflight_shared native c)
            (λ _. external_check) n (preflight-Quiet c n) λ a n' agrees. ground arith)
          λ a n' facts. follows r Unit _ _ (λ u. facts) (prepare_cache-Quiet native r c n'))
        λ a n' (agrees, external).
          then-Outcome r (Handled native r keys) (StorageLeased r mode c)
            (start_storage native c keys) (add native (add_storage mode) c) n'
            (start_storage-Quiet native r gives c keys n')
            λ h n'' handled. record {
              handle = h;
              agrees = agrees;
              fits = external;
              handled = Handled-is_some mode keys h fits handled;
              identity = refl;
              globals = refl;
            }
