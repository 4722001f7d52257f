-- ===== src/Runtime/Leases.antt =====
-- src/tirtc/_runtime.py: the set of active leases, and what acquiring and releasing one write.
use tirtc_client_python.Prelude.{
  ℕ, suc, ◌-◌, String, Bool, true, false, not, ◌&&◌, Option, none, some, List, [], ◌∷◌, ◌==◌,
  str_eq, if◌then◌else◌, is_empty, erase,
}
use tirtc_client_python.Prelude.Int.{pos}
use tirtc_client_python.Errors.{TirtcError, new_error, already_initialized}
use tirtc_client_python.Errors.Action.{Exception, foreign}
use tirtc_client_python.Runtime.{
  Product, rtc, storage, Mode, access_key, external_token, Configuration, Lease, Runtime,
}

pub record State (N H : Type 0) : Type 0 where
  pub runtime : Runtime H
  pub world : N

-- `lease in _active_leases`, by identity.
abbrev pub find : ℕ → List Lease → Option Lease
find i [] = none
find i (l ∷ ls) = if l.id == i then some l else find i ls

-- `_active_leases.remove(lease)`
abbrev pub remove : ℕ → List Lease → List Lease
remove i [] = []
remove i (l ∷ ls) = if l.id == i then ls else l ∷ remove i ls

-- `a == b` on an optional text, and on the two pairs that are compared.
abbrev pub option_eq : Option String → Option String → Bool
option_eq none none = true
option_eq (some a) (some b) = str_eq a b
option_eq _ _ = false

abbrev pub bool_eq : Bool → Bool → Bool
bool_eq true b = b
bool_eq false b = not b

-- `stored is None or stored == value` for the two configurations that are kept.
abbrev pub shared_agrees : Option (String × Bool) → Configuration → Bool
shared_agrees none c = true
shared_agrees (some (cache_dir, console)) c =
    str_eq cache_dir c.cache_dir && bool_eq console c.console_log_enabled

abbrev pub external_agrees : Option (String × Option String) → Configuration → Bool
external_agrees none c = true
external_agrees (some (app_id, endpoint)) c =
    str_eq app_id c.app_id && option_eq endpoint c.endpoint

abbrev pub is_external : Mode → Bool
is_external access_key = false
is_external external_token = true

abbrev pub shared_error : TirtcError
unfolding new_error
shared_error =
    new_error already_initialized (some (pos 6022)) "already_initialized"
      (some "all TiRTC Clients must share cache_dir and console logging")

abbrev pub external_error : TirtcError
unfolding new_error
external_error =
    new_error already_initialized (some (pos 6022)) "already_initialized"
      (some "external-token Cloud Clients must share app_id and endpoint")

-- What a raise says where the fuel of `close_handle_code` would have run out.
abbrev pub out_of_fuel : Exception
out_of_fuel = foreign "out of fuel"

abbrev pub set_shared : Option (String × Bool) → Configuration → Option (String × Bool)
set_shared none c = some (c.cache_dir, c.console_log_enabled)
set_shared (some s) c = some s

module _ {H : Type 0} where
  abbrev pub new_lease : Product → Mode → Configuration → Runtime H → Lease
  new_lease product mode c r = record {
    id = r.next_id;
    product = product;
    mode = mode;
    configuration = c;
  }

  -- The end of `_acquire_rtc`: the lease, with the handle that the native call gave.
  unfoldable pub add_rtc : Mode → Configuration → Option H → Runtime H → Runtime H
  add_rtc mode c handle r = record r {
    active = new_lease rtc mode c r ∷ r.active;
    rtc_lease = some r.next_id;
    shared = set_shared r.shared c;
    handle = λ i. if i == r.next_id then handle else r.handle i;
    next_id = suc r.next_id;
  }

  -- The end of `_acquire_storage`.
  unfoldable pub add_storage : Mode → Configuration → Option H → Runtime H → Runtime H
  add_storage mode c handle r = record r {
    active = new_lease storage mode c r ∷ r.active;
    external_configuration =
        if is_external mode then some (c.app_id, c.endpoint) else r.external_configuration;
    external_count = if is_external mode then suc r.external_count else r.external_count;
    shared = set_shared r.shared c;
    handle = λ i. if i == r.next_id then handle else r.handle i;
    next_id = suc r.next_id;
  }

  -- What `_release` takes back for each kind of lease.
  take_back : Product → Mode → Runtime H → Runtime H
  take_back rtc mode r = record r { rtc_lease = none }
  take_back storage access_key r = r
  take_back storage external_token r = record r {
    external_count = r.external_count - 1;
    external_configuration = if r.external_count - 1 == 0 then none else r.external_configuration;
  }

  -- The end of `_release`.
  unfoldable pub drop_lease : Lease → Runtime H → Runtime H
  unfolding take_back
  drop_lease l r = record (take_back l.product l.mode r) {
    active = remove l.id r.active;
    closed = λ i. if i == l.id then true else r.closed i;
    handle = erase l.id r.handle;
    shared = if is_empty (remove l.id r.active) then none else r.shared;
  }
