-- ===== src/Lifecycle/Tests.antt =====
-- Two threads that close one object: the theorems at their run, and single calls.
use tirtc_client_python.Prelude.{
  ◌≤◌, ◌<◌, ◌≡◌, refl, ◌⊎◌, true, false, Option, none, some, [], ◌∷◌, if◌then◌else◌, count_if,
}
use tirtc_client_python.Errors.{in_use_error}
use tirtc_client_python.Errors.Action.{Exception, sdk, foreign, err}
use tirtc_client_python.Lifecycle.{raised, new, begin, wake, fail, succeed}
use tirtc_client_python.Lifecycle.System.{
  idle, waiting, tearing_down, World, called, left_by, Reach, here, next, begins, fails, succeeds,
  tears_down, is_tearing_down,
}
use tirtc_client_python.Lifecycle.Consistency.{is_closing}
use tirtc_client_python.Lifecycle.Safety.{answer, delivered, one_tears_down, no_stuck_waiter}
use tirtc_client_python.Lifecycle.Outcomes.{failed, outcome_reaches_waiters}

abbrev opened : World
opened = record { coordinator = new; threads = idle ∷ idle ∷ [] }

abbrev first_in : World
first_in = called opened [] (idle ∷ []) false

abbrev both_in : World
both_in = called first_in (tearing_down 1 ∷ []) [] false

abbrev broken : Exception
broken = foreign "native close"

abbrev reported : World
reported = left_by (fail both_in.coordinator 1 broken) [] (waiting 1 ∷ [])

abbrev shut : World
shut = left_by (succeed both_in.coordinator 1 none) [] (waiting 1 ∷ [])

Reach-both_in : Reach opened both_in
unfolding begin new
Reach-both_in =
    next (next here (begins [] (idle ∷ []) false refl)) (begins (tearing_down 1 ∷ []) [] false refl)

Reach-reported : Reach opened reported
unfolding begin new
Reach-reported = next Reach-both_in (fails [] (waiting 1 ∷ []) 1 broken refl)

Reach-shut : Reach opened shut
unfolding begin new
Reach-shut = next Reach-both_in (succeeds [] (waiting 1 ∷ []) 1 none refl)

preflight_refused : begin new true ≡ (new, raised (sdk in_use_error))
unfolding begin new
preflight_refused = refl

one_tears_down_example :
    (count_if is_tearing_down both_in.threads ≤ 1)
    × (count_if is_tearing_down both_in.threads
        ≡ (if is_closing both_in.coordinator.status then 1 else 0))
unfolding new
one_tears_down_example = one_tears_down opened both_in (refl, refl) Reach-both_in

no_stuck_waiter_example :
    ((o : Option Exception) × (answer (wake both_in.coordinator 1) ≡ some (delivered o)))
    ⊎ (0 < count_if (tears_down 1) both_in.threads)
unfolding begin new
no_stuck_waiter_example =
    no_stuck_waiter opened both_in (tearing_down 1 ∷ []) [] 1 (refl, refl) Reach-both_in refl

outcome_reaches_waiters_example : answer (wake reported.coordinator 1) ≡ some (err broken)
unfolding begin new
outcome_reaches_waiters_example =
    outcome_reaches_waiters opened both_in reported [] (waiting 1 ∷ []) (idle ∷ []) [] 1
      (failed broken) (refl, refl) Reach-both_in refl here refl
