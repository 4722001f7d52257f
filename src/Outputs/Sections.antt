-- ===== src/Outputs/Sections.antt =====
-- What the sections of `attach` and `detach` come to.
use tirtc_client_python.Prelude.{
  ℕ, ◌≡◌, ◌≢◌, refl, ap, Bool, true, false, not, Option, none, some, if-cases, arith,
}
use tirtc_client_python.Errors.Action.{sdk, Exception, Result, ok, err}
use tirtc_client_python.Errors.{in_use_error}
use tirtc_client_python.Lifecycle.{
  Status, open_, closing as closing_, close_failed, closed, Begun, Coordinator, own, begin,
  begin_at, start as start_close, require_open, require_status,
}
use tirtc_client_python.Outputs.{
  Output, hold, attach_parent, attach_free, attach_open, attach_begin, is_bound_to, detach_open,
  begin_detach, detach_checked, Detaching, leaves, nothing, raises, detach_result, detach_bound,
  detach_begin, parent_detach_begin, close_begin_output,
}

abbrev pub is_open : Status → Bool
is_open open_ = true
is_open _ = false

bound_to : (q : ℕ) (b : Option ℕ) → not (is_bound_to q b) ≡ false → b ≡ some q
bound_to q none h = absurd (ground (arith, h))
bound_to q (some p) h = ground (arith, h)

abbrev is_own : Begun → Bool
is_own (own g) = true
is_own _ = false

-- What the first section of `attach` comes to.
pub data Attached (p : ℕ) (o : Output) : Result (Unit {0}) × Output → Type 0 where
  refused : (e : Exception) → Attached p o (err e, o)
  taken_in : o.bound ≡ none → is_open o.close.status ≡ true → Attached p o (ok tt, hold p true o)

attach_free-Attached :
    (p : ℕ) (bound : Option ℕ) (taken : Result (Unit {0})) (o : Output)
    → o.bound ≡ bound
    → is_open o.close.status ≡ true
    → Attached p o (attach_free p bound taken o)
unfolding attach_free attach_parent
attach_free-Attached p (some q) taken o same opened = refused _
attach_free-Attached p none (ok u) o same opened = taken_in same opened
attach_free-Attached p none (err e) o same opened = refused e

open_status :
    (status : Status) (u : Unit {0}) → require_status status ≡ ok u → is_open status ≡ true
unfolding require_status
open_status open_ u h = refl
open_status closing_ u h = absurd (ground (arith, h))
open_status close_failed u h = absurd (ground (arith, h))
open_status closed u h = absurd (ground (arith, h))

attach_open-Attached :
    (r : Result (Unit {0})) (p : ℕ) (taken : Result (Unit {0})) (o : Output)
    → require_status o.close.status ≡ r
    → Attached p o (attach_open r p taken o)
unfolding attach_open
attach_open-Attached (ok u) p taken o h =
    attach_free-Attached p o.bound taken o refl (open_status o.close.status u h)
attach_open-Attached (err e) p taken o h = refused e

pub attach_begin-Attached :
    (p : ℕ) (taken : Result (Unit {0})) (o : Output) → Attached p o (attach_begin p taken o)
unfolding attach_begin require_open
attach_begin-Attached p taken o =
    attach_open-Attached (require_status o.close.status) p taken o refl

-- What the first section of a detach comes to.
pub data Left (o : Output) : Detaching × Output → Type 0 where
  stays : (d : Detaching) → ((p : ℕ) → d ≢ leaves p) → Left o (d, o)
  goes : (p : ℕ) → o.bound ≡ some p → o.detaching ≡ false → Left o (leaves p, begin_detach o)

raises_is_not : (e : Exception) (p : ℕ) → raises e ≢ leaves p
raises_is_not e p h = ground (arith, h)

detach_native-Left :
    (p : ℕ) (native : Result (Unit {0})) (o : Output)
    → o.bound ≡ some p
    → o.detaching ≡ false
    → Left o (detach_result p (elim native [ ok u ↦ (ok tt, begin_detach o) | err e ↦ (err e, o) ]))
unfolding detach_result
detach_native-Left p (ok u) o same quiet = goes p same quiet
detach_native-Left p (err e) o same quiet = stays (raises e) (raises_is_not e)

detach_checked-Left :
    (p : ℕ) (blocking : Bool) (native : Result (Unit {0})) (o : Output)
    → o.bound ≡ some p
    → Left o (detach_result p (detach_checked blocking native o))
unfolding detach_checked detach_result
detach_checked-Left p blocking native o same =
    if-cases (λ (x : Result (Unit {0}) × Output). Left o (detach_result p x)) o.detaching
      (λ busy. stays _ (raises_is_not _))
      λ quiet.
        if-cases (λ (x : Result (Unit {0}) × Output). Left o (detach_result p x)) blocking
          {x = (err (sdk in_use_error), o)} (λ b. stays _ (raises_is_not _))
          λ free. detach_native-Left p native o same quiet

detach_bound-Left :
    (unbound_error : Exception) (blocking : Bool) (native : Result (Unit {0})) (bound : Option ℕ)
    (o : Output)
    → o.bound ≡ bound
    → Left o (detach_bound unbound_error blocking native bound o)
unfolding detach_bound
detach_bound-Left e blocking native none o same = stays (raises e) (raises_is_not e)
detach_bound-Left e blocking native (some p) o same = detach_checked-Left p blocking native o same

detach_open-Left :
    (r : Result (Unit {0})) (e : Exception) (blocking : Bool) (native : Result (Unit {0}))
    (o : Output)
    → Left o (detach_open r e blocking native o)
unfolding detach_open
detach_open-Left (err x) e blocking native o = stays (raises x) (raises_is_not x)
detach_open-Left (ok u) e blocking native o = detach_bound-Left e blocking native o.bound o refl

pub parent_detach_begin-Left :
    (q : ℕ) (blocking : Bool) (native : Result (Unit {0})) (o : Output)
    → Left o (parent_detach_begin q blocking native o)
unfolding parent_detach_begin
parent_detach_begin-Left q blocking native o =
    if-cases (Left o) (not (is_bound_to q o.bound))
      (λ other. stays nothing (λ p h. ground (arith, h)))
      λ ours. detach_checked-Left q blocking native o (bound_to q o.bound ours)

pub detach_begin-Left :
    (e : Exception) (blocking : Bool) (native : Result (Unit {0})) (o : Output)
    → Left o (detach_begin e blocking native o)
unfolding detach_begin
detach_begin-Left e blocking native o = detach_open-Left (require_open o.close) e blocking native o

not_own : (b : Begun) → is_own b ≡ false → (g : ℕ) → b ≢ own g
not_own b h g k = ground (arith, h, ap is_own k)

-- What the first section of a close comes to.
pub data CloseBegun (o : Output) : Begun × Output → Type 0 where
  joins :
      (b : Begun) (c : Coordinator)
      → ((g : ℕ) → b ≢ own g)
      → c.status ≡ o.close.status
      → CloseBegun o (b, record o { close = c })
  owns :
      (g : ℕ) (c : Coordinator)
      → c.status ≡ closing_
      → o.close.status ≢ closing_
      → o.detaching ≡ false
      → CloseBegun o (own g, record o { close = c })

begun : Output → Coordinator × Begun → Begun × Output
begun o (c, b) = (b, record o { close = c })

begin_at-CloseBegun :
    (status : Status) (o : Output)
    → o.close.status ≡ status
    → o.detaching ≡ false
    → CloseBegun o (begun o (begin_at status o.close false))
unfolding begin_at start_close begun
begin_at-CloseBegun open_ o h quiet = owns _ _ refl (λ k. ground (arith, h, k)) quiet
begin_at-CloseBegun closing_ o h quiet = joins _ _ (not_own _ refl) refl
begin_at-CloseBegun close_failed o h quiet = owns _ _ refl (λ k. ground (arith, h, k)) quiet
begin_at-CloseBegun closed o h quiet = joins _ _ (not_own _ refl) refl

pub close_begin_output-CloseBegun :
    (blocking : Bool) (o : Output) → CloseBegun o (close_begin_output blocking o)
unfolding close_begin_output begin begun
close_begin_output-CloseBegun blocking o =
    if-cases (CloseBegun o) o.detaching (λ busy. joins _ o.close (not_own _ refl) refl)
      λ quiet.
        if-cases (CloseBegun o) blocking (λ b. joins _ o.close (not_own _ refl) refl)
          λ free. begin_at-CloseBegun o.close.status o refl quiet
