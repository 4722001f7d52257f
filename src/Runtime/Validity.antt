-- ===== src/Runtime/Validity.antt =====
-- The module's globals fit one another, and what acquiring and releasing write keeps them so.
use tirtc_client_python.Prelude.{
  String, ℕ, suc, ◌≤◌, ◌<◌, ◌≡◌, refl, Bool, true, false, not, Option, none, some, List, [], ◌∷◌,
  arith, ltb, leb, ◌==◌, if◌then◌else◌, any, count_if, is_some, is_empty,
}
use tirtc_client_python.Runtime.{Product, rtc, storage, Mode, Configuration, Lease, Runtime, loaded}
use tirtc_client_python.Runtime.Leases.{
  shared_agrees, external_agrees, is_external, set_shared, new_lease, add_rtc,
}
use tirtc_client_python.Runtime.Lookup.{has_id, any-weaken}
use tirtc_client_python.Runtime.Agreement.{set_shared-agrees}

abbrev pub is_rtc : Product → Bool
is_rtc rtc = true
is_rtc storage = false

abbrev pub is_rtc_lease : Lease → Bool
is_rtc_lease l = is_rtc l.product

abbrev pub is_external_storage : Lease → Bool
is_external_storage l = if is_rtc l.product then false else is_external l.mode

abbrev pub disagrees_shared : Option (String × Bool) → Lease → Bool
disagrees_shared o l = not (shared_agrees o l.configuration)

abbrev pub disagrees_external : Option (String × Option String) → Lease → Bool
disagrees_external o l =
    if is_external_storage l then not (external_agrees o l.configuration) else false

abbrev pub is_later : ℕ → Lease → Bool
is_later next_id l = leb next_id l.id

module _ {H : Type 0} where
  abbrev pub lacks_handle : (ℕ → Option H) → Lease → Bool
  lacks_handle handle l = if is_external l.mode then false else not (is_some (handle l.id))

  -- The counter and the stored configurations are those of the active leases, of which at most
  -- one is for RTC; no identity is used twice, no active lease is closed, and one with access
  -- keys has its handle.
  pub record IsValid (r : Runtime H) : Type 0 where
    pub one_rtc : count_if is_rtc_lease r.active ≡ (if is_some r.rtc_lease then 1 else 0)
    pub external_counted : r.external_count ≡ count_if is_external_storage r.active
    pub external_set : is_some r.external_configuration ≡ ltb 0 r.external_count
    pub external_same : any (disagrees_external r.external_configuration) r.active ≡ false
    pub shared_set : is_some r.shared ≡ not (is_empty r.active)
    pub shared_same : any (disagrees_shared r.shared) r.active ≡ false
    pub fresh : any (is_later r.next_id) r.active ≡ false
    pub distinct : (i : ℕ) → count_if (has_id i) r.active ≤ 1
    pub not_closed : any (λ l. r.closed l.id) r.active ≡ false
    pub closed_before : (i : ℕ) → r.closed i ≡ true → i < r.next_id
    pub has_handles : any (lacks_handle r.handle) r.active ≡ false

  pub loaded-IsValid : (pid : ℕ) → IsValid (loaded pid)
  unfolding loaded
  loaded-IsValid pid = record {
    one_rtc = refl;
    external_counted = refl;
    external_set = refl;
    external_same = refl;
    shared_set = refl;
    shared_same = refl;
    fresh = refl;
    distinct = λ i. omega arith;
    not_closed = refl;
    closed_before = λ i h. ground arith;
    has_handles = refl;
  }

pub fresh-has_id :
    (n : ℕ) (ls : List Lease) → any (is_later n) ls ≡ false → any (has_id n) ls ≡ false
fresh-has_id n ls h = any-weaken (is_later n) (is_later n) (has_id n) (λ l p q. ground arith) ls h h

pub later_suc :
    (n : ℕ) (ls : List Lease) → any (is_later n) ls ≡ false → any (is_later (suc n)) ls ≡ false
later_suc n ls h =
    any-weaken (is_later n) (is_later n) (is_later (suc n)) (λ l p q. ground arith) ls h h

pub absent-count :
    (i : ℕ) (ls : List Lease) → any (has_id i) ls ≡ false → count_if (has_id i) ls ≡ 0
absent-count i [] h = refl
absent-count i (x ∷ ls) h = ground (arith, absent-count i ls)

pub set_shared-is_some :
    (o : Option (String × Bool)) (c : Configuration) → is_some (set_shared o c) ≡ true
set_shared-is_some none c = refl
set_shared-is_some (some s) c = refl

pub set_shared-same :
    (o : Option (String × Bool)) (c : Configuration) (ls : List Lease)
    → is_some o ≡ not (is_empty ls)
    → any (disagrees_shared o) ls ≡ false
    → any (disagrees_shared (set_shared o c)) ls ≡ false
set_shared-same none c [] s h = refl
set_shared-same none c (l ∷ ls) s h = ground arith
set_shared-same (some o) c ls s h = h

module _ {H : Type 0} (r : Runtime H) (valid : IsValid r) (c : Configuration) (mode : Mode)
    (handle : Option H) (agrees : shared_agrees r.shared c ≡ true)
    (handled : (if is_external mode then true else is_some handle) ≡ true) where
  -- Handles of the leases there are.
  pub kept_handles :
      any (lacks_handle (λ i. if i == r.next_id then handle else r.handle i)) r.active ≡ false
  kept_handles =
      any-weaken (is_later r.next_id) (lacks_handle r.handle)
        (lacks_handle (λ i. if i == r.next_id then handle else r.handle i)) (λ l p q. ground arith)
        r.active valid.fresh valid.has_handles

  pub added_distinct :
      (product : Product) (i : ℕ) → count_if (has_id i) (new_lease product mode c r ∷ r.active) ≤ 1
  added_distinct product i = ground (
    arith,
    valid.distinct i,
    absent-count i r.active,
    fresh-has_id r.next_id r.active,
    valid.fresh,
  )

  pub next_not_closed : r.closed r.next_id ≡ false
  next_not_closed = ground (arith, valid.closed_before r.next_id)

  pub add_rtc-IsValid : r.rtc_lease ≡ none → IsValid (add_rtc mode c handle r)
  unfolding add_rtc
  add_rtc-IsValid idle = record {
    one_rtc = ground (arith, valid.one_rtc);
    external_counted = valid.external_counted;
    external_set = valid.external_set;
    external_same = valid.external_same;
    shared_set = set_shared-is_some r.shared c;
    shared_same = ground (
      arith,
      set_shared-agrees r.shared c agrees,
      set_shared-same r.shared c r.active valid.shared_set valid.shared_same,
    );
    fresh = ground (arith, later_suc r.next_id r.active valid.fresh);
    distinct = added_distinct rtc;
    not_closed = ground (arith, next_not_closed, valid.not_closed);
    closed_before = λ i h. ground (arith, valid.closed_before i h);
    has_handles = ground (arith, kept_handles, handled);
  }
