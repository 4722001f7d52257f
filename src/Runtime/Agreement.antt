-- ===== src/Runtime/Agreement.antt =====
-- The comparisons of the kept configurations are equalities.
use tirtc_client_python.Prelude.{
  ◌≡◌, refl, ap, subst, String, Bool, true, false, ◌&&◌, Option, none, some, arith, str_eq,
  str_eq_iff, is_some,
}
use tirtc_client_python.Runtime.{Configuration}
use tirtc_client_python.Runtime.Leases.{
  option_eq, bool_eq, shared_agrees, external_agrees, set_shared,
}

str_eq_refl : (s : String) → str_eq s s ≡ true
str_eq_refl s = (str_eq_iff s s).1 refl

option_eq_refl : (a : Option String) → option_eq a a ≡ true
option_eq_refl none = refl
option_eq_refl (some s) = str_eq_refl s

bool_eq_refl : (b : Bool) → bool_eq b b ≡ true
bool_eq_refl true = refl
bool_eq_refl false = refl

option_eq→path : (a b : Option String) → option_eq a b ≡ true → a ≡ b
option_eq→path none none h = refl
option_eq→path (some a) (some b) h = ap some ((str_eq_iff a b).0 h)
option_eq→path none (some b) h = ground arith
option_eq→path (some a) none h = ground arith

-- A configuration agrees with what it sets.
pub set_shared-agrees :
    (o : Option (String × Bool)) (c : Configuration)
    → shared_agrees o c ≡ true
    → shared_agrees (set_shared o c) c ≡ true
set_shared-agrees none c h =
    ground (arith, str_eq_refl c.cache_dir, bool_eq_refl c.console_log_enabled)
set_shared-agrees (some s) c h = h

pub external_agrees_refl :
    (c : Configuration) → external_agrees (some (c.app_id, c.endpoint)) c ≡ true
external_agrees_refl c = ground (arith, str_eq_refl c.app_id, option_eq_refl c.endpoint)

both : (a b : Bool) → (a && b) ≡ true → (a ≡ true) × (b ≡ true)
both true b h = (refl, h)
both false b h = ground arith

-- What agrees with a kept pair agrees with every configuration that agrees with it.
pub external_agrees_trans :
    (o : Option (String × Option String)) (c d : Configuration)
    → is_some o ≡ true
    → external_agrees o c ≡ true
    → external_agrees o d ≡ true
    → external_agrees (some (c.app_id, c.endpoint)) d ≡ true
external_agrees_trans none c d s h k = ground arith
external_agrees_trans (some (app_id, endpoint)) c d s h k =
    let (same_app, same_endpoint) = both _ _ h in
    subst (λ o. external_agrees o d ≡ true)
      (ap some (λ i. (
        (str_eq_iff app_id c.app_id).0 same_app i,
        option_eq→path endpoint c.endpoint same_endpoint i,
      )))
      k
