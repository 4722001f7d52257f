-- ===== src/Outputs/System.antt =====
-- An output in use: any number of threads that attach, detach and close, and the parents that do.
use tirtc_client_python.Prelude.{
  ℕ, suc, ◌-◌, ◌≡◌, ◌≢◌, Bool, true, false, Option, none, some, ◌==◌, if◌then◌else◌,
}
use tirtc_client_python.Errors.Action.{Exception, Result, ok, err}
use tirtc_client_python.Lifecycle.{Coordinator, new, wake, own}
use tirtc_client_python.Outputs.{
  Output, attach_begin, attach_end, detach_begin, parent_detach_begin, detach_end, parent_drops,
  close_begin_output, close_detaches, close_detached, close_fails, close_unbinds, close_succeeds,
  leaves,
}

-- The thread that closes, with its generation and the parent that it goes on with: none, one in the
-- body, or one after the section that unbinds.
pub data Closer : Type 0 where
  no_close : Closer
  body : ℕ → Option ℕ → Closer
  unbound : ℕ → Option ℕ → Closer

-- `attaching` is the thread inside `attach`, by the parent that has taken the output: while there is
-- one, nobody else enters a section under the output's lock. `leaving` is the thread between the two
-- sections of a detach, by the parent, and `telling` counts those that have still to tell a parent;
-- they do that under the parent's lock only.
pub record System : Type 0 where
  pub output : Output
  pub attaching : Option ℕ
  pub leaving : Option ℕ
  pub telling : ℕ → ℕ
  pub closer : Closer

abbrev pub fresh : System
unfolding new
fresh = record {
  output = record {
    close = new;
    bound = none;
    detaching = false;
    native_detached = false;
    idle = true;
    held = λ p. false;
  };
  attaching = none;
  leaving = none;
  telling = λ p. 0;
  closer = no_close;
}

abbrev pub more : ℕ → (ℕ → ℕ) → ℕ → ℕ
more p f q = if q == p then suc (f q) else f q

abbrev pub fewer : ℕ → (ℕ → ℕ) → ℕ → ℕ
fewer p f q = if q == p then f q - 1 else f q

pub data Step (s : System) : System → Type 0 where
  attaches :
      (p : ℕ) (taken : Result (Unit {0}))
      → s.attaching ≡ none
      → (attach_begin p taken s.output).0 ≡ ok tt
      → Step s (record s { output = (attach_begin p taken s.output).1; attaching = some p })
  attach_refused :
      (p : ℕ) (taken : Result (Unit {0})) (e : Exception)
      → s.attaching ≡ none
      → (attach_begin p taken s.output).0 ≡ err e
      → Step s (record s { output = (attach_begin p taken s.output).1 })
  attach_ends :
      (p : ℕ) (native : Result (Unit {0}))
      → s.attaching ≡ some p
      → Step s (record s { output = (attach_end p native s.output).1; attaching = none })
  detaches :
      (p : ℕ) (unbound_error : Exception) (blocking : Bool) (native : Result (Unit {0}))
      → s.attaching ≡ none
      → (detach_begin unbound_error blocking native s.output).0 ≡ leaves p
      → Step s (record s {
        output = (detach_begin unbound_error blocking native s.output).1;
        leaving = some p;
      })
  parent_detaches :
      (p q : ℕ) (blocking : Bool) (native : Result (Unit {0}))
      → s.attaching ≡ none
      → (parent_detach_begin q blocking native s.output).0 ≡ leaves p
      → Step s (record s {
        output = (parent_detach_begin q blocking native s.output).1;
        leaving = some p;
      })
  leaves_parent :
      (p : ℕ)
      → s.attaching ≡ none
      → s.leaving ≡ some p
      → Step s
          (record s { output = detach_end s.output; leaving = none; telling = more p s.telling })
  tells :
      (p n : ℕ)
      → s.telling p ≡ suc n
      → Step s (record s { output = parent_drops p s.output; telling = fewer p s.telling })
  closes :
      (g : ℕ) (blocking : Bool)
      → s.attaching ≡ none
      → (close_begin_output blocking s.output).0 ≡ own g
      → Step s (record s {
        output = (close_begin_output blocking s.output).1;
        closer = body g s.output.bound;
      })
  close_joins :
      (blocking : Bool)
      → s.attaching ≡ none
      → ((g : ℕ) → (close_begin_output blocking s.output).0 ≢ own g)
      → Step s (record s { output = (close_begin_output blocking s.output).1 })
  wakes :
      (g : ℕ) (c : Coordinator) (r : Result (Unit {0}))
      → s.attaching ≡ none
      → wake s.output.close g ≡ some (c, r)
      → Step s (record s { output = record s.output { close = c } })
  body_detaches :
      (g : ℕ) (bound : Option ℕ)
      → s.closer ≡ body g bound
      → close_detaches bound s.output ≡ true
      → Step s (record s { output = close_detached s.output })
  body_raises :
      (g : ℕ) (bound : Option ℕ) (e : Exception)
      → s.attaching ≡ none
      → s.closer ≡ body g bound
      → Step s (record s { output = close_fails g e s.output; closer = no_close })
  body_returns :
      (g : ℕ) (bound : Option ℕ)
      → s.attaching ≡ none
      → s.closer ≡ body g bound
      → Step s (record s { output = close_unbinds s.output; closer = unbound g bound })
  close_tells :
      (g p : ℕ)
      → s.closer ≡ unbound g (some p)
      → Step s (record s { output = parent_drops p s.output; closer = unbound g none })
  close_ends :
      (g : ℕ)
      → s.attaching ≡ none
      → s.closer ≡ unbound g none
      → Step s (record s { output = close_succeeds g s.output; closer = no_close })

pub data Reach : System → Type 0 where
  start : Reach fresh
  next : {s t : System} → Reach s → Step s t → Reach t
