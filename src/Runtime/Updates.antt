-- ===== src/Runtime/Updates.antt =====
-- The other two writes keep the globals valid: a storage lease that is added, and a lease that is
-- taken out.
use tirtc_client_python.Prelude.{
  String, ℕ, ◌+◌, ◌-◌, ◌≡◌, refl, Bool, true, false, not, Option, none, some, List, [], ◌∷◌, arith,
  ltb, ◌==◌, if◌then◌else◌, if-cases, any, count_if, is_some, is_empty, erase,
}
use tirtc_client_python.Runtime.{
  Product, rtc, storage, Mode, access_key, external_token, Configuration, Lease, Runtime,
}
use tirtc_client_python.Runtime.Leases.{
  find, remove, shared_agrees, external_agrees, add_storage, drop_lease,
}
use tirtc_client_python.Runtime.Lookup.{
  has_id, found-any, count_if-remove, any-remove, remove-removes, any-weaken,
}
use tirtc_client_python.Runtime.Agreement.{
  set_shared-agrees, external_agrees_refl, external_agrees_trans,
}
use tirtc_client_python.Runtime.Validity.{
  IsValid, is_rtc_lease, is_external_storage, disagrees_shared, disagrees_external, is_later,
  lacks_handle, later_suc, set_shared-is_some, set_shared-same, kept_handles, added_distinct,
  next_not_closed,
}

no_external :
    (o : Option (String × Option String)) (ls : List Lease)
    → count_if is_external_storage ls ≡ 0
    → any (disagrees_external o) ls ≡ false
no_external o [] h = refl
no_external o (l ∷ ls) h = ground (arith, no_external o ls)

-- The configuration that an external-token lease stores agrees with all of them.
external_stored :
    (o : Option (String × Option String)) (c : Configuration) (ls : List Lease)
    → external_agrees o c ≡ true
    → is_some o ≡ ltb 0 (count_if is_external_storage ls)
    → any (disagrees_external o) ls ≡ false
    → any (disagrees_external (some (c.app_id, c.endpoint))) ls ≡ false
external_stored none c ls h s a = no_external (some (c.app_id, c.endpoint)) ls (ground arith)
external_stored (some o) c ls h s a =
    any-weaken (disagrees_external (some o)) (disagrees_external (some o))
      (disagrees_external (some (c.app_id, c.endpoint)))
      (λ l p q. ground (arith, external_agrees_trans (some o) c l.configuration refl h)) ls a a

module _ {H : Type 0} (r : Runtime H) (valid : IsValid r) where
  module _ (c : Configuration) (handle : Option H) (agrees : shared_agrees r.shared c ≡ true) where
    pub add_external-IsValid :
        external_agrees r.external_configuration c ≡ true
        → IsValid (add_storage external_token c handle r)
    unfolding add_storage
    add_external-IsValid same = record {
      one_rtc = valid.one_rtc;
      external_counted = ground (arith, valid.external_counted);
      external_set = ground arith;
      external_same = ground (
        arith,
        external_agrees_refl c,
        external_stored r.external_configuration c r.active same,
        valid.external_set,
        valid.external_counted,
        valid.external_same,
      );
      shared_set = set_shared-is_some r.shared c;
      shared_same = ground (
        arith,
        set_shared-agrees r.shared c agrees,
        set_shared-same r.shared c r.active valid.shared_set valid.shared_same,
      );
      fresh = ground (arith, later_suc r.next_id r.active valid.fresh);
      distinct = added_distinct r valid c external_token handle agrees refl storage;
      not_closed =
          ground
            (arith, next_not_closed r valid c external_token handle agrees refl, valid.not_closed);
      closed_before = λ i h. ground (arith, valid.closed_before i h);
      has_handles = ground (arith, kept_handles r valid c external_token handle agrees refl);
    }

    pub add_keyed-IsValid : is_some handle ≡ true → IsValid (add_storage access_key c handle r)
    unfolding add_storage
    add_keyed-IsValid handled = record {
      one_rtc = valid.one_rtc;
      external_counted = valid.external_counted;
      external_set = valid.external_set;
      external_same = valid.external_same;
      shared_set = set_shared-is_some r.shared c;
      shared_same = ground (
        arith,
        set_shared-agrees r.shared c agrees,
        set_shared-same r.shared c r.active valid.shared_set valid.shared_same,
      );
      fresh = ground (arith, later_suc r.next_id r.active valid.fresh);
      distinct = added_distinct r valid c access_key handle agrees handled storage;
      not_closed =
          ground
            (arith, next_not_closed r valid c access_key handle agrees handled, valid.not_closed);
      closed_before = λ i h. ground (arith, valid.closed_before i h);
      has_handles =
          ground (arith, kept_handles r valid c access_key handle agrees handled, handled);
    }

  module _ (l : Lease) (found : find l.id r.active ≡ some l) where
    gone : any (has_id l.id) (remove l.id r.active) ≡ false
    gone = remove-removes l.id r.active (valid.distinct l.id)

    left : (p : Lease → Bool) → any p r.active ≡ false → any p (remove l.id r.active) ≡ false
    left p h = any-remove p l.id r.active h

    fewer :
        (p : Lease → Bool)
        → count_if p r.active ≡ count_if p (remove l.id r.active) + (if p l then 1 else 0)
    fewer p = count_if-remove p l.id r.active l found

    dropped_closed :
        any (λ m. if m.id == l.id then true else r.closed m.id) (remove l.id r.active) ≡ false
    dropped_closed =
        any-weaken (has_id l.id) (λ m. r.closed m.id)
          (λ m. if m.id == l.id then true else r.closed m.id) (λ m p q. ground arith)
          (remove l.id r.active) gone (left (λ m. r.closed m.id) valid.not_closed)

    dropped_handles : any (lacks_handle (erase l.id r.handle)) (remove l.id r.active) ≡ false
    dropped_handles =
        any-weaken (has_id l.id) (lacks_handle r.handle) (lacks_handle (erase l.id r.handle))
          (λ m p q. ground arith) (remove l.id r.active) gone
          (left (lacks_handle r.handle) valid.has_handles)

    dropped_shared_set :
        (ls : List Lease)
        → is_empty r.active ≡ false
        → is_some (if is_empty ls then none else r.shared) ≡ not (is_empty ls)
    dropped_shared_set [] h = refl
    dropped_shared_set (x ∷ ls) h = ground (arith, valid.shared_set)

    dropped_shared_same :
        (ls : List Lease)
        → any (disagrees_shared r.shared) ls ≡ false
        → any (disagrees_shared (if is_empty ls then none else r.shared)) ls ≡ false
    dropped_shared_same [] h = refl
    dropped_shared_same (x ∷ ls) h = h

  some_active : (i : ℕ) (ls : List Lease) (l : Lease) → find i ls ≡ some l → is_empty ls ≡ false
  some_active i [] l h = ground arith
  some_active i (x ∷ ls) l h = refl

  none_agrees : (ls : List Lease) → any (disagrees_external none) ls ≡ false
  none_agrees [] = refl
  none_agrees (x ∷ ls) = ground (arith, none_agrees ls)

  -- What a release writes, but for what depends on the kind of lease.
  dropped-IsValid :
      (l : Lease) (rtc_lease : Option ℕ) (o : Option (String × Option String)) (n : ℕ)
      → find l.id r.active ≡ some l
      → count_if is_rtc_lease (remove l.id r.active) ≡ (if is_some rtc_lease then 1 else 0)
      → n ≡ count_if is_external_storage (remove l.id r.active)
      → is_some o ≡ ltb 0 n
      → any (disagrees_external o) (remove l.id r.active) ≡ false
      → IsValid (record r {
        active = remove l.id r.active;
        rtc_lease = rtc_lease;
        external_configuration = o;
        external_count = n;
        closed = λ i. if i == l.id then true else r.closed i;
        handle = erase l.id r.handle;
        shared = if is_empty (remove l.id r.active) then none else r.shared;
      })
  dropped-IsValid l rtc_lease o n found one counted set same = record {
    one_rtc = one;
    external_counted = counted;
    external_set = set;
    external_same = same;
    shared_set =
        dropped_shared_set l found (remove l.id r.active) (some_active l.id r.active l found);
    shared_same =
        dropped_shared_same l found (remove l.id r.active)
          (left l found (disagrees_shared r.shared) valid.shared_same);
    fresh = left l found (is_later r.next_id) valid.fresh;
    distinct = λ j. ground (arith, fewer l found (has_id j), valid.distinct j);
    not_closed = dropped_closed l found;
    closed_before = λ j h. ground (
      arith,
      valid.closed_before j,
      found-any (is_later r.next_id) l.id r.active l found valid.fresh,
    );
    has_handles = dropped_handles l found;
  }

  abbrev lease : ℕ → Product → Mode → Configuration → Lease
  lease i product mode c = record { id = i; product = product; mode = mode; configuration = c }

  -- Each kind of lease.
  drop_kind :
      (i : ℕ) (c : Configuration) (product : Product) (mode : Mode)
      → find i r.active ≡ some (lease i product mode c)
      → IsValid (drop_lease (lease i product mode c) r)
  unfolding drop_lease
  drop_kind i c rtc mode found =
      let l = lease i rtc mode c in
      dropped-IsValid l none r.external_configuration r.external_count found
        (ground (arith, fewer l found is_rtc_lease, valid.one_rtc))
        (ground (arith, fewer l found is_external_storage, valid.external_counted))
        valid.external_set
        (left l found (disagrees_external r.external_configuration) valid.external_same)
  drop_kind i c storage access_key found =
      let l = lease i storage access_key c in
      dropped-IsValid l r.rtc_lease r.external_configuration r.external_count found
        (ground (arith, fewer l found is_rtc_lease, valid.one_rtc))
        (ground (arith, fewer l found is_external_storage, valid.external_counted))
        valid.external_set
        (left l found (disagrees_external r.external_configuration) valid.external_same)
  drop_kind i c storage external_token found =
      let l = lease i storage external_token c in
      dropped-IsValid l r.rtc_lease
        (if r.external_count - 1 == 0 then none else r.external_configuration)
        (r.external_count - 1) found (ground (arith, fewer l found is_rtc_lease, valid.one_rtc))
        (ground (arith, fewer l found is_external_storage, valid.external_counted))
        (ground (arith, valid.external_set))
        (if-cases (λ o. any (disagrees_external o) (remove i r.active) ≡ false)
          (r.external_count - 1 == 0) (λ z. none_agrees (remove i r.active))
          λ z. left l found (disagrees_external r.external_configuration) valid.external_same)

  pub drop_lease-IsValid : (l : Lease) → find l.id r.active ≡ some l → IsValid (drop_lease l r)
  drop_lease-IsValid l found = drop_kind l.id l.configuration l.product l.mode found
