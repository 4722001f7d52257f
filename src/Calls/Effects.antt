-- ===== src/Calls/Effects.antt =====
-- How calls move the object: a relation on it that composes holds of a chain where it holds of each
-- call, whether the chain returns or raises.
use tirtc_client_python.Prelude.{ℕ, Bool, false, Option, none, some}
use tirtc_client_python.Prelude.Int.{ℤ}
use tirtc_client_python.Errors.Action.{
  Exception, Result, ok, err, Action, raise_if, ◌>>=◌, ◌>>◌, pure,
}
use tirtc_client_python.Util.Retry.{Run, retry_in_use_result}
use tirtc_client_python.Lifecycle.{Coordinator, Begun, own, wait, done, raised, begin, require_open}
use tirtc_client_python.Calls.Closing.{
  Closable, free, opened, opened_if, settle_close, proceed, closing,
}
use tirtc_client_python.Calls.{
  Sdk, Held, Call, outside, require_process, expect_zero, checked, checked_value, run_result,
  retry_result, retry_in_use,
}

pub record Composes {S : Type 0} (R : S → S → Type 0) : Type 0 where
  pub stay : (s : S) → R s s
  pub go_on : (s t u : S) → R s t → R t u → R s u

-- A call on a state `T` moves the object that `view` finds in it.
abbrev pub Moves : {S T A : Type 0} → (T → S) → (S → S → Type 0) → Action T A → Type 0
Moves view R m = (s : _) → R (view s) (view (m s).1)

module _ {S T : Type 0} (view : T → S) (R : S → S → Type 0) (composes : Composes R) where
  abbrev From : {A : Type 0} → S → Result A × T → Type 0
  From s x = R s (view x.1)

  pub bind-Moves :
      {A B : Type 0} (m : Action T A) (f : A → Action T B)
      → Moves view R m
      → ((a : A) → Moves view R (f a))
      → Moves view R (m >>= f)
  bind-Moves {A = A} {B = B} m f first next s = go (m s) (first s)
    where
      go :
          (r : Result A × T)
          → R (view s) (view r.1)
          → From {A = B} (view s) (let (a, t) = r in elim a [ ok x ↦ f x t | err e ↦ (err e, t) ])
      go (ok a, t) h = composes.go_on (view s) (view t) (view (f a t).1) h (next a t)
      go (err e, t) h = h

  pub then-Moves :
      {A B : Type 0} (m : Action T A) (k : Action T B)
      → Moves view R m
      → Moves view R k
      → Moves view R (m >> k)
  then-Moves m k first next = bind-Moves m (λ _. k) first (λ _. next)

  pub raise_if-Moves : (test : Bool) (e : Exception) → Moves view R (raise_if test e)
  raise_if-Moves test e s = composes.stay (view s)

abbrev pub self_of : {S N : Type 0} → Held S N → S
self_of s = s.self

abbrev pub object_of : {S N : Type 0} → Closable S N → S
object_of s = s.object.self

module _ {S N : Type 0} (R : S → S → Type 0) (composes : Composes R) where
  module _ (native : Sdk N) where
    pub require_process-Moves : Moves self_of R (require_process {S = S} native)
    unfolding require_process
    require_process-Moves s = composes.stay s.self

    pub expect_zero-Moves : (code : ℤ) → Moves self_of R (expect_zero {S = S} native code)
    unfolding expect_zero
    expect_zero-Moves code s = composes.stay s.self

    pub checked-Moves : (f : N → ℤ × N) → Moves self_of R (checked {S = S} native f)
    unfolding checked
    checked-Moves f =
        bind-Moves self_of R composes (outside f) (expect_zero native) (λ s. composes.stay s.self)
          expect_zero-Moves

    pub checked_value-Moves :
        {A : Type 0} (f : N → (ℤ × A) × N) → Moves self_of R (checked_value {S = S} native f)
    unfolding checked_value
    checked_value-Moves f =
        bind-Moves self_of R composes (outside f) (λ (code, a). expect_zero native code >> pure a)
          (λ s. composes.stay s.self)
          λ (code, a).
            then-Moves self_of R composes (expect_zero native code) (pure a)
              (expect_zero-Moves code) λ s. composes.stay s.self

    run_result-Moves : {A : Type 0} (o : Run N A) → Moves self_of R (run_result {S = S} native o)
    unfolding run_result
    run_result-Moves none s = composes.stay s.self
    run_result-Moves (some (r, n)) s = composes.stay s.self

    pub retry_result-Moves :
        {A : Type 0} (code_of : A → ℤ) (f : N → A × N)
        → Moves self_of R (retry_result {S = S} native code_of f)
    unfolding retry_result
    retry_result-Moves code_of f s =
        run_result-Moves (retry_in_use_result native.clock code_of f 5_000_000 s.world) s

    pub retry_in_use-Moves : (f : N → ℤ × N) → Moves self_of R (retry_in_use {S = S} native f)
    unfolding retry_in_use
    retry_in_use-Moves f =
        bind-Moves self_of R composes (retry_result native (λ code. code) f) (expect_zero native)
          (retry_result-Moves (λ code. code) f) expect_zero-Moves

  pub free-Moves : {A : Type 0} (m : Call S N A) → Moves self_of R m → Moves object_of R (free m)
  free-Moves m h s = h s.object

  pub opened-Moves :
      {A : Type 0} (m : Call S N A) → Moves self_of R m → Moves object_of R (opened m)
  opened-Moves {A = A} m h s = go (require_open s.coordinator)
    where
      go : (r : Result (Unit {0})) → R s.object.self (opened_if {A = A} r m s).1.object.self
      go (ok u) = h s.object
      go (err e) = composes.stay s.object.self

  module _ {A : Type 0} (after : S → S) (last : Option Exception → Call S N A)
      (after_moves : (s : S) → R s (after s))
      (last_moves : (o : Option Exception) → Moves self_of R (last o)) where
    settle_close-Moves :
        (c : Coordinator) (g : ℕ) (s : S) (x : Result (Option Exception) × Held S N)
        → R s x.1.self
        → R s (settle_close after last c g x).1.object.self
    unfolding settle_close
    settle_close-Moves c g s (err e, t) h = h
    settle_close-Moves c g s (ok outcome, t) h =
        composes.go_on s (after t.self) _
          (composes.go_on s t.self (after t.self) h (after_moves t.self))
          (last_moves outcome (record t { self = after t.self }))

    proceed-Moves :
        (c : Coordinator) (b : Begun) (body : Call S N (Option Exception)) (o : Held S N)
        → Moves self_of R body
        → R o.self (proceed after last c b body o).1.object.self
    unfolding proceed
    proceed-Moves c (own g) body o h = settle_close-Moves c g o.self (body o) (h o)
    proceed-Moves c (wait g) body o h = composes.stay o.self
    proceed-Moves c done body o h = last_moves none o
    proceed-Moves c (raised e) body o h = composes.stay o.self

    pub closing-Moves :
        (body : Call S N (Option Exception))
        → Moves self_of R body
        → Moves object_of R (closing after last body)
    unfolding closing
    closing-Moves body h s =
        proceed-Moves (begin s.coordinator false).0 (begin s.coordinator false).1 body s.object h
