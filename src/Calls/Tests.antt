-- ===== src/Calls/Tests.antt =====
-- A close that raises, and is tried again.
use tirtc_client_python.Prelude.{ℕ, suc, ◌≡◌, ◌≢◌, refl, Option, none, arith, if◌then◌else◌, ◌==◌}
use tirtc_client_python.Errors.Action.{Exception, foreign, ok, err, lift, Result}
use tirtc_client_python.Lifecycle.{new, begin, closing as closing_}
use tirtc_client_python.Calls.{Call}
use tirtc_client_python.Calls.Closing.{Closable, Ended, outcome_result, closing}
use tirtc_client_python.Calls.Closing.Refinement.{Abstract, abstracted, spec_close, closing_refines}

-- A body that raises where the object holds 0, and counts its runs.
abbrev body : Call ℕ ℕ (Option Exception)
body s = (if s.self == 0 then err (foreign "busy") else ok none, record s { self = suc s.self })

abbrev after : ℕ → ℕ
after n = n

abbrev last : Option Exception → Call ℕ ℕ (Unit {0})
last outcome = lift (outcome_result outcome)

abbrev open_object : Closable ℕ ℕ
unfolding new
open_object = record { coordinator = new; object = record { self = 0; world = 0 } }

open_not_closing : open_object.coordinator.status ≢ closing_
unfolding open_object
open_not_closing h = ground (arith, h)

fails_first : (closing after last body open_object).0 ≡ err (foreign "busy")
unfolding closing begin open_object
fails_first = refl

closing_refines_example :
    ◌≡◌ {A = Result (Ended (Unit {0})) × Abstract ℕ ℕ}
      (
        (closing after last body open_object).0,
        abstracted after last (closing after last body open_object).1,
      )
      (spec_close after last body (abstracted after last open_object))
closing_refines_example = closing_refines after last body open_object open_not_closing
