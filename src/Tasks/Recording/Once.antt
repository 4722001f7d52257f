-- ===== src/Tasks/Recording/Once.antt =====
-- A recording is stopped in native code once.
use tirtc_client_python.Prelude.{◌≡◌, refl, ap, sym, subst, ◌∙◌, Bool, true, String, Option, arith}
use tirtc_client_python.Prelude.Int.{ℤ}
use tirtc_client_python.Errors.{in_use_error}
use tirtc_client_python.Errors.Action.{Exception, Result, ok, sdk, raise_if, ◌>>=◌, ◌>>◌}
use tirtc_client_python.Calls.{Sdk, Held, Call, reads, change, require_process, retry_in_use}
use tirtc_client_python.Calls.Effects.{
  Composes, Moves, self_of, object_of, bind-Moves, raise_if-Moves, require_process-Moves,
  retry_in_use-Moves, free-Moves, closing-Moves,
}
use tirtc_client_python.Calls.Closing.{Closable, free, closing}
use tirtc_client_python.Calls.Closing.Results.{closing-same}
use tirtc_client_python.Calls.Closing.Guards.{guarded-same}
use tirtc_client_python.Tasks.Recording.{
  Recording, recorded, stop_recording, leave_parent, stop_body, stop_recording_task,
}

-- What a stopped recording keeps.
pub record Keeps (s t : Recording) : Type 0 where
  pub stopped : t.stopped ≡ true
  pub result : t.result ≡ s.result
  pub error : t.error ≡ s.error

abbrev OnceStopped : Recording → Recording → Type 0
OnceStopped s t = s.stopped ≡ true → Keeps s t

OnceStopped-composes : Composes OnceStopped
OnceStopped-composes = record {
  stay = λ s h. record { stopped = h; result = refl; error = refl };
  go_on = λ s t u first second h.
      let a = first h in
      let b = second a.stopped in
      record { stopped = b.stopped; result = b.result ∙ a.result; error = b.error ∙ a.error };
}

module _ {N : Type 0} (native : Sdk N) (recording_stop : N → (ℤ × (String × ℤ)) × N)
    (native_close : N → ℤ × N) where
  abbrev Body : Call Recording N (Option Exception)
  Body = stop_body native recording_stop native_close

  leave_parent-Keeps :
      (t : Recording) → OnceStopped t (leave_parent native recording_stop native_close t)
  unfolding leave_parent
  leave_parent-Keeps t h = record {
    stopped = ground (arith, h);
    result = ground arith;
    error = ground arith;
  }

  stop_begun-Moves :
      Moves self_of OnceStopped
        (reads (λ t. t.stopped) >>= stop_recording native recording_stop native_close)
  unfolding stop_recording
  stop_begun-Moves s h =
      subst (λ b. Keeps s.self (stop_recording native recording_stop native_close b s).1.self)
        (sym h) (OnceStopped-composes.stay s.self h)

  stop_body-Moves : Moves self_of OnceStopped Body
  unfolding stop_body
  stop_body-Moves =
      bind-Moves self_of OnceStopped OnceStopped-composes
        (reads (λ t. t.stopped)
          >>= stop_recording native recording_stop native_close
          >> retry_in_use native native_close
          >> change (leave_parent native recording_stop native_close))
        (λ _. reads (λ t. t.error))
        (bind-Moves self_of OnceStopped OnceStopped-composes
          (reads (λ t. t.stopped)
            >>= stop_recording native recording_stop native_close
            >> retry_in_use native native_close)
          (λ _. change (leave_parent native recording_stop native_close))
          (bind-Moves self_of OnceStopped OnceStopped-composes
            (reads (λ t. t.stopped) >>= stop_recording native recording_stop native_close)
            (λ _. retry_in_use native native_close) stop_begun-Moves
            (λ _. retry_in_use-Moves OnceStopped OnceStopped-composes native native_close))
          (λ _ s. leave_parent-Keeps s.self))
        λ _ s. OnceStopped-composes.stay s.self

  stop_recording_task-Moves :
      (blocking : Bool)
      → Moves object_of OnceStopped
          (stop_recording_task native recording_stop native_close blocking)
  unfolding stop_recording_task recorded
  stop_recording_task-Moves blocking =
      bind-Moves object_of OnceStopped OnceStopped-composes
        (free (require_process native) >> raise_if blocking (sdk in_use_error))
        (λ _. closing (λ t. t) (λ _. recorded native recording_stop native_close) Body)
        (bind-Moves object_of OnceStopped OnceStopped-composes (free (require_process native))
          (λ _. raise_if blocking (sdk in_use_error))
          (free-Moves OnceStopped OnceStopped-composes (require_process native)
            (require_process-Moves OnceStopped OnceStopped-composes native))
          (λ _.
            raise_if-Moves object_of OnceStopped OnceStopped-composes blocking (sdk in_use_error)))
        λ _.
          closing-Moves OnceStopped OnceStopped-composes (λ t. t)
            (λ _. recorded native recording_stop native_close) OnceStopped-composes.stay
            (λ _ s. OnceStopped-composes.stay s.self) Body stop_body-Moves

module _ {N : Type 0} (native : Sdk N) (stop stop' : N → (ℤ × (String × ℤ)) × N)
    (native_close : N → ℤ × N) where
  begun_true :
      (f : N → (ℤ × (String × ℤ)) × N) (o : Held Recording N)
      → o.self.stopped ≡ true
      → stop_recording native f native_close o.self.stopped o ≡ (ok tt, o)
  unfolding stop_recording
  begun_true f o h = ap (λ b. stop_recording native f native_close b o) h

  body-same :
      (o : Held Recording N)
      → o.self.stopped ≡ true
      → stop_body native stop native_close o ≡ stop_body native stop' native_close o
  unfolding stop_body stop_recording leave_parent
  body-same o h =
      ap
        (λ (x : Result (Unit {0}) × Held Recording N).
          ((λ _. x)
              >> retry_in_use native native_close
              >> change (leave_parent native stop native_close)
              >> reads (λ t. t.error))
            o)
        (begun_true stop o h ∙ sym (begun_true stop' o h))

  same_stop :
      (blocking : Bool) (s : Closable Recording N)
      → s.object.self.stopped ≡ true
      → stop_recording_task native stop native_close blocking s
        ≡ stop_recording_task native stop' native_close blocking s
  unfolding stop_recording_task recorded
  same_stop blocking s h =
      guarded-same native blocking (sdk in_use_error)
        (closing (λ t. t) (λ _. recorded native stop native_close)
          (stop_body native stop native_close))
        (closing (λ t. t) (λ _. recorded native stop' native_close)
          (stop_body native stop' native_close))
        s
        (closing-same (λ t. t) (λ _. recorded native stop native_close)
          (stop_body native stop native_close) (stop_body native stop' native_close) s
          (body-same s.object h))

  -- Once the native stop of a recording has given its result, a call of `stop` is the same whatever
  -- a native stop would do, so it makes none; and whether it returns or raises, the file and the
  -- error that were kept stay as they are.
  pub stop_recording_task-Keeps :
      (blocking : Bool) (s : Closable Recording N)
      → s.object.self.stopped ≡ true
      → (stop_recording_task native stop native_close blocking s
          ≡ stop_recording_task native stop' native_close blocking s)
        × Keeps s.object.self
            (stop_recording_task native stop native_close blocking s).1.object.self
  stop_recording_task-Keeps blocking s h =
      (same_stop blocking s h, stop_recording_task-Moves native stop native_close blocking s h)
