-- ===== src/Connection/Over.antt =====
-- An attempt that is over keeps its error and its code.
use tirtc_client_python.Prelude.{ℕ, ◌≤◌, ◌≡◌, refl, ◌∙◌, false, arith}
use tirtc_client_python.Connection.{Connection, is_active}
use tirtc_client_python.Connection.System.{is_cancelling, Reach, here, next}
use tirtc_client_python.Connection.Evolution.{Same, Evolves, Step-Evolves}

-- The attempt is over: it has begun, is not the active one, and no cancellation of it runs.
pub record IsOver (g : ℕ) (c : Connection) : Type 0 where
  pub begun : g ≤ c.connect_generation
  pub inactive : is_active g c.active_connect ≡ false
  pub calm : is_cancelling (c.attempts g) ≡ false

Evolves-IsOver : (g : ℕ) (c d : Connection) → Evolves g c d → IsOver g c → IsOver g d
Evolves-IsOver g c d e o = record {
  begun = omega (arith, o.begun, e.later);
  inactive = e.inactive o.inactive;
  calm = e.calm o.inactive o.calm;
}

pub Reach-Same : {c d : Connection} (g : ℕ) → Reach c d → IsOver g c → IsOver g d × Same g c d
Reach-Same g here o = (o, (refl, refl))
Reach-Same {d = d} g (next r step) o =
    let (before, (errors, codes)) = Reach-Same g r o in
    let e = Step-Evolves g before.begun step in
    let (errors', codes') = e.same before.inactive before.calm in
    (Evolves-IsOver g _ d e before, (errors' ∙ errors, codes' ∙ codes))
