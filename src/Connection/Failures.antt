-- ===== src/Connection/Failures.antt =====
-- A failure is final, and so is a cancellation.
use tirtc_client_python.Prelude.{
  ◌∙◌, ℕ, ◌≤◌, ◌≡◌, refl, sym, subst, Bool, true, false, Option, none, some, arith,
}
use tirtc_client_python.Prelude.Int.{ℤ}
use tirtc_client_python.Errors.Action.{Exception, Result, ok, err}
use tirtc_client_python.Errors.Fallible.{◌>>=◌}
use tirtc_client_python.Lifecycle.{copy_error}
use tirtc_client_python.Runtime.{Mode}
use tirtc_client_python.Connection.{
  Connection, is_zero, Attempt, connect_result, wait_result, raise_cancelled, close_managed,
  raised_by, performs, cancel_begin,
}
use tirtc_client_python.Connection.System.{created, Step, Reach, here, next}
use tirtc_client_python.Connection.Evolution.{Step-Evolves}
use tirtc_client_python.Connection.Settling.{IsSound, reached-IsSound}

-- The attempt has ended with a code that is not 0.
pub record IsFailed (g : ℕ) (code : ℤ) (c : Connection) : Type 0 where
  pub begun : g ≤ c.connect_generation
  pub failed : (c.attempts g).terminal_code ≡ some code

Step-IsFailed :
    (g : ℕ) (code : ℤ) (c d : Connection)
    → is_zero code ≡ false
    → Step c d
    → IsFailed g code c
    → IsFailed g code d
Step-IsFailed g code c d nonzero step f =
    let e = Step-Evolves g f.begun step in
    record { begun = omega (arith, f.begun, e.later); failed = e.failure code nonzero f.failed }

-- The attempt is being cancelled, or was, with error `e`.
pub record IsCancelled (g : ℕ) (e : Exception) (c : Connection) : Type 0 where
  pub begun : g ≤ c.connect_generation
  pub error : (c.attempts g).error ≡ some e
  pub cancelling : (c.attempts g).cancelling ≡ true

Step-IsCancelled :
    (g : ℕ) (x : Exception) (c d : Connection) → Step c d → IsCancelled g x c → IsCancelled g x d
Step-IsCancelled g x c d step f =
    let e = Step-Evolves g f.begun step in
    record {
      begun = omega (arith, f.begun, e.later);
      error = e.error_kept f.cancelling ∙ f.error;
      cancelling = e.cancelling f.cancelling;
    }

-- Once an attempt that has begun has failed, with a code that is not 0, no event, completion,
-- cancellation or later attempt changes its code.
pub failure_is_final :
    (g : ℕ) (code : ℤ) (c d : Connection)
    → is_zero code ≡ false
    → IsFailed g code c
    → Reach c d
    → (d.attempts g).terminal_code ≡ some code
failure_is_final g code c d nonzero f reach = (go d reach).failed
  where
    go : (d : Connection) → Reach c d → IsFailed g code d
    go d here = f
    go d (next r step) = Step-IsFailed g code _ d nonzero step (go _ r)

cancel_begin-IsCancelled :
    (g : ℕ) (e : Exception) (c : Connection)
    → IsSound c
    → (cancel_begin g e c).1 ≡ performs
    → IsCancelled g e (cancel_begin g e c).0
unfolding cancel_begin
cancel_begin-IsCancelled g e c s h = record {
  begun = ground (arith, s.begun g, h);
  error = ground (arith, h);
  cancelling = ground (arith, h);
}

-- What a `connect` comes to that was cancelled with error `e`.
pub data CancelledWith (e : Exception) (closing : Result (Unit {0})) (a : Attempt)
    : Result (Unit {0}) → Type 0 where
  cancel_failed :
      (x : Exception) → a.cancel_error ≡ some x → CancelledWith e closing a (err (copy_error x))
  close_failed :
      (x : Exception)
      → a.cancel_error ≡ none
      → a.has_handle ≡ true
      → closing ≡ err x
      → CancelledWith e closing a (err x)
  cancelled : a.cancel_error ≡ none → CancelledWith e closing a (err (copy_error e))

result-CancelledWith :
    (code_error : ℤ → Exception) (e : Exception) (closing : Result (Unit {0})) (a : Attempt)
    (cancel_error : Option Exception) (has_handle : Bool)
    → a.error ≡ some e
    → a.cancel_error ≡ cancel_error
    → a.has_handle ≡ has_handle
    → CancelledWith e closing a (
        raise_cancelled cancel_error >>= λ _.
        close_managed has_handle closing >>= λ _. connect_result code_error a)
unfolding raise_cancelled close_managed connect_result
result-CancelledWith code_error e closing a (some x) has_handle given failed handle =
    cancel_failed x failed
result-CancelledWith code_error e closing a none false given failed handle =
    subst (λ o. CancelledWith e closing a (raised_by code_error o a.terminal_code)) (sym given)
      (cancelled failed)
result-CancelledWith code_error e (ok u) a none true given failed handle =
    subst (λ o. CancelledWith e (ok u) a (raised_by code_error o a.terminal_code)) (sym given)
      (cancelled failed)
result-CancelledWith code_error e (err x) a none true given failed handle =
    close_failed x failed handle refl

-- In any state that calls and events can lead to: once a thread performs the cancellation of an
-- attempt, for a timeout or a `disconnect`, the attempt's `connect` does not return, whatever code
-- comes from native code afterwards. From the end of its waits on it raises a copy of the error
-- of the cancellation where that failed, otherwise the error of the native close of a managed handle
-- where that failed, and otherwise a copy of the error given.
pub cancel_decides :
    (code_error : ℤ → Exception) (closing : Result (Unit {0})) (mode : Mode) (c f : Connection)
    (g : ℕ) (e : Exception)
    → Reach (created mode) c
    → (cancel_begin g e c).1 ≡ performs
    → Reach (cancel_begin g e c).0 f
    → CancelledWith e closing (f.attempts g) (wait_result code_error closing (f.attempts g))
unfolding wait_result
cancel_decides code_error closing mode c f g e reach performed later =
    result-CancelledWith code_error e closing (f.attempts g) _ _ (go f later).error refl refl
  where
    go : (f : Connection) → Reach (cancel_begin g e c).0 f → IsCancelled g e f
    go f here = cancel_begin-IsCancelled g e c (reached-IsSound mode c reach) performed
    go f (next r step) = Step-IsCancelled g e _ f step (go _ r)
