-- ===== src/Tasks/Export/Evolution.antt =====
-- What every call and every event does to an ExportTask.
use tirtc_client_python.Prelude.{
  ◌≡◌, refl, true, false, Bool, if◌then◌else◌, not, ◌&&◌, ◌||◌, String, Option, none, some, List,
  [], ◌∷◌, is_some, if-cases, arith, ◌∙◌,
}
use tirtc_client_python.Prelude.Int.{ℤ, pos, ltb_ℤ, eqb_ℤ}
use tirtc_client_python.Errors.Action.{Exception, sdk, Action, Result, ok, err, ◌>>=◌}
use tirtc_client_python.Calls.{Call, change, require_process, failure_named, failure_of}
use tirtc_client_python.Calls.Closing.{Closable, free}
use tirtc_client_python.Calls.Effects.{
  Composes, Moves, self_of, object_of, bind-Moves, require_process-Moves, free-Moves,
}
use tirtc_client_python.Tasks.Media.{RecordingFile, new_file}
use tirtc_client_python.Tasks.Export.{
  Export, Native, TaskEvent, Told, nothing, progressed, gap, completed, settle_task, handle_event,
  handle_all, deliver, begin_settled, end_settled, completed_told,
}

-- The file without the mark that it has been deleted.
abbrev pub location : Option RecordingFile → Option (String × ℤ)
location none = none
location (some f) = some (f.path, f.duration_ms)

-- `_done` is set just where there is a file or an error, never both, and only once terminal.
pub record IsSettled (t : Export) : Type 0 where
  pub done : t.done ≡ (is_some t.file || is_some t.error)
  pub single : (is_some t.file && is_some t.error) ≡ false
  pub over : (t.done && not t.terminal) ≡ false

-- The outcome of `s` is the outcome of `t`.
pub record HasOutcome (s t : Export) : Type 0 where
  pub terminal : t.terminal ≡ true
  pub error : t.error ≡ s.error
  pub file : location t.file ≡ location s.file

pub record Evolves (s t : Export) : Type 0 where
  pub settled : IsSettled s → IsSettled t
  pub final : s.terminal ≡ true → HasOutcome s t

pub Evolves-composes : Composes Evolves
Evolves-composes = record {
  stay = λ s. record {
    settled = λ h. h;
    final = λ h. record { terminal = h; error = refl; file = refl };
  };
  go_on = λ s t u h k. record {
    settled = λ g. k.settled (h.settled g);
    final = λ g.
        let first = h.final g in
        let second = k.final first.terminal in
        record {
          terminal = second.terminal;
          error = second.error ∙ first.error;
          file = second.file ∙ first.file;
        };
  };
}

-- Writes to other fields.
pub same_outcome :
    (s t : Export)
    → t.done ≡ s.done
    → t.terminal ≡ s.terminal
    → t.error ≡ s.error
    → t.file ≡ s.file
    → Evolves s t
same_outcome s t same_done same_terminal same_error same_file = record {
  settled = λ h. record {
    done = ground (arith, h.done);
    single = ground (arith, h.single);
    over = ground (arith, h.over);
  };
  final = λ h. record { terminal = ground arith; error = same_error; file = ground arith };
}

-- The file that goes with what the naming of an error came to.
data Agree : Result (Option Exception) → Option RecordingFile → Type 0 where
  succeeded : (f : RecordingFile) → Agree (ok none) (some f)
  failed : (e : Exception) → Agree (ok (some e)) none
  refused : (e : Exception) → Agree (err e) none

module _ {N : Type 0} (native : Native N) where
  agree :
      (zero_ : Bool) (e : Exception) (p : Result (Unit {0})) (f : RecordingFile)
      → Agree (if zero_ then ok none else failure_named e p) (if zero_ then some f else none)
  unfolding failure_named
  agree true e p f = succeeded f
  agree false e (ok u) f = failed e
  agree false e (err x) f = refused x

  end_settled-Evolves :
      (t : Export) (r : Result (Option Exception)) (file : Option RecordingFile)
      → Agree r file
      → t.terminal ≡ false
      → Evolves t (end_settled native r (record t { terminal = true; file = file })).1
  unfolding end_settled
  end_settled-Evolves t r file (succeeded f) live = record {
    settled = λ h. record { done = ground (arith); single = refl; over = refl };
    final = λ h. absurd (ground (arith, h, live));
  }
  end_settled-Evolves t r file (failed e) live = record {
    settled = λ h. record { done = refl; single = refl; over = refl };
    final = λ h. absurd (ground (arith, h, live));
  }
  end_settled-Evolves t r file (refused e) live = record {
    settled = λ h. record {
      done = ground (arith, live, h.done, h.over);
      single = refl;
      over = ground (arith, live, h.over);
    };
    final = λ h. absurd (ground (arith, h, live));
  }

  pub settle_task-Evolves :
      (code : ℤ) (path : String) (ms : ℤ) (n : N) (t : Export)
      → Evolves t (settle_task native code path ms n t).1
  unfolding settle_task begin_settled failure_of
  settle_task-Evolves code path ms n t =
      if-cases (λ (x : Result (Unit {0}) × Export). Evolves t x.1) t.terminal {x = (ok tt, t)}
        (λ over. Evolves-composes.stay t)
        λ live.
          end_settled-Evolves t (failure_of native.base code n) _
            (agree (eqb_ℤ code (pos 0)) (sdk (native.base.code_error code)) (native.base.process n)
              (new_file path ms))
            live

  completed-Evolves :
      (t : Export) (x : Result (Unit {0}) × Export)
      → Evolves t x.1
      → Evolves t (completed_told native x).0
  unfolding completed_told
  completed-Evolves t (ok u, s) h = h
  completed-Evolves t (err e, s) h = h

  pub handle_event-Evolves :
      (n : N) (e : TaskEvent) (t : Export) → Evolves t (handle_event native n e t).0
  unfolding handle_event
  handle_event-Evolves n (progressed fraction covered) t =
      if-cases (λ (x : Export × Told). Evolves t x.0)
        (t.terminal || ltb_ℤ fraction t.progress.fraction) {x = (t, nothing)}
        (λ late. Evolves-composes.stay t) λ early. same_outcome _ _ refl refl refl refl
  handle_event-Evolves n (gap v) t = Evolves-composes.stay t
  handle_event-Evolves n (completed code path ms) t =
      completed-Evolves t (settle_task native code path ms n t)
        (settle_task-Evolves code path ms n t)

  handle_all-Evolves :
      (n : N) (es : List TaskEvent) (t : Export) → Evolves t (handle_all native n es t)
  unfolding handle_all
  handle_all-Evolves n [] t = Evolves-composes.stay t
  handle_all-Evolves n (e ∷ rest) t =
      Evolves-composes.go_on t (handle_event native n e t).0 _ (handle_event-Evolves n e t)
        (handle_all-Evolves n rest (handle_event native n e t).0)

  abbrev pub Moved : {A : Type 0} → Call Export N A → Type 0
  Moved m = Moves self_of Evolves m

  abbrev pub ClosableMoved : {A : Type 0} → Action (Closable Export N) A → Type 0
  ClosableMoved m = Moves object_of Evolves m

  abbrev pub chain :
      {A B : Type 0} (m : Call Export N A) (f : A → Call Export N B)
      → Moved m
      → ((a : A) → Moved (f a))
      → Moved (m >>= f)
  chain = bind-Moves self_of Evolves Evolves-composes

  abbrev pub closable_chain :
      {A B : Type 0} (m : Action (Closable Export N) A) (f : A → Action (Closable Export N) B)
      → ClosableMoved m
      → ((a : A) → ClosableMoved (f a))
      → ClosableMoved (m >>= f)
  closable_chain = bind-Moves object_of Evolves Evolves-composes

  pub still : {A : Type 0} (r : Export → Result A) → Moved (λ s. (r s.self, s))
  still r s = Evolves-composes.stay s.self

  pub deliver-Moved : Moved (deliver native)
  unfolding deliver
  deliver-Moved s = handle_all-Evolves s.world (native.meanwhile s.world) s.self

  pub process-Moved : Moved (require_process {S = Export} native.base)
  process-Moved = require_process-Moves Evolves Evolves-composes native.base

  pub free_process-Moved : ClosableMoved (free (require_process {S = Export} native.base))
  free_process-Moved =
      free-Moves Evolves Evolves-composes (require_process native.base) process-Moved

  pub change-Moved : (f : Export → Export) → ((t : Export) → Evolves t (f t)) → Moved (change f)
  change-Moved f h s = h s.self
