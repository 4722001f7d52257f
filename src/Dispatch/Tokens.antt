-- ===== src/Dispatch/Tokens.antt =====
-- The dispatcher and the executor: its callbacks are serial, and no queued event is forgotten.
use tirtc_client_python.Prelude.{
  ℕ, suc, ◌+◌, ◌≤◌, ◌<◌, ◌≡◌, ◌≢◌, refl, Bool, true, false, Option, none, some, List, [], ◌∷◌, ◌++◌,
  arith, if◌then◌else◌, is_empty,
}
use tirtc_client_python.Objects.{Object}
use tirtc_client_python.Dispatch.{
  Event, Dispatcher, Posted, new, append, unchanged, drop_frame, without, marked, post, native_sink,
  native_task, post_native_task, drain_begin, drain_end, close_begin, discard,
}
use tirtc_client_python.Dispatch.Cases.{post-cases}
use tirtc_client_python.Dispatch.Queue.{Replaced}
use tirtc_client_python.Dispatch.System.{
  World, initial, taken, finished, Step, sinks, posts_task, schedules, takes, finishes, closes,
  discards, Reach, here, next,
}

-- `k` is the number of times that the dispatcher is owed to the executor, in its queue, or taken.
pub record IsHeld (d : Dispatcher) (k running : ℕ) : Type 0 where
  pub at_most_one : k ≤ 1
  pub inside : running ≡ (if d.executing then 1 else 0)
  pub inside_counts : running ≤ k
  pub driven : d.scheduled ≡ true → k ≡ 1
  pub idle : d.scheduled ≡ false → d.closed ≡ false → k ≡ 0
  pub busy : d.executing ≡ true → d.scheduled ≡ true

pub record IsDriven (d : Dispatcher) (k running : ℕ) : Type 0 where
  pub held : IsHeld d k running
  pub live : is_empty d.events ≡ false → d.scheduled ≡ true
  pub filled : d.scheduled ≡ true → d.executing ≡ false → is_empty d.events ≡ false

abbrev pub tokens : World → ℕ
tokens w = w.owed + w.ready + w.running

is_empty-middle {ℓ} : {A : Type ℓ} (xs ys : List A) (x : A) → is_empty (xs ++ x ∷ ys) ≡ false
is_empty-middle [] ys x = refl
is_empty-middle (y ∷ xs) ys x = refl

append-IsDriven :
    (d : Dispatcher) (e : Event) (k running : ℕ)
    → d.closed ≡ false
    → IsHeld d k running
    → let p = append d e in IsDriven p.dispatcher (k + (if p.schedule then 1 else 0)) running
unfolding append
append-IsDriven d e k running c v = ground (arith, is_empty-middle d.events [] (marked d e))

without-IsHeld :
    (d : Dispatcher) (victim : Event) (rest : List Event) (k running : ℕ)
    → IsHeld d k running
    → IsHeld (without d victim rest) k running
unfolding without
without-IsHeld d victim rest k running v = ground arith

Replaced-IsDriven :
    (d : Dispatcher) (e : Event) (events : List Event) (k running : ℕ)
    → Replaced d.events e events
    → IsDriven d k running
    → IsDriven (record d { events = events }) k running
Replaced-IsDriven d e events k running r v = ground (
  arith,
  r.was,
  r.becomes,
  is_empty-middle r.before r.after e,
  is_empty-middle r.before r.after r.old,
)

unchanged-IsDriven :
    (d : Dispatcher) (b : Bool) (k running : ℕ)
    → IsDriven d k running
    → let p = unchanged d b in IsDriven p.dispatcher (k + (if p.schedule then 1 else 0)) running
unfolding unchanged
unchanged-IsDriven d b k running v = ground arith

drop_frame-IsDriven :
    (d : Dispatcher) (k running : ℕ)
    → IsDriven d k running
    → let p = drop_frame d in IsDriven p.dispatcher (k + (if p.schedule then 1 else 0)) running
unfolding drop_frame
drop_frame-IsDriven d k running v = ground arith

post-IsDriven :
    (d : Dispatcher) (e : Event) (latest : Bool) (k running : ℕ)
    → IsDriven d k running
    → let p = post d e latest in IsDriven p.dispatcher (k + (if p.schedule then 1 else 0)) running
unfolding without
post-IsDriven d e latest k running v =
    post-cases (λ p. IsDriven p.dispatcher (k + (if p.schedule then 1 else 0)) running) d e
      (λ why. unchanged-IsDriven d false k running v) (λ f c. drop_frame-IsDriven d k running v)
      (λ room fits c. append-IsDriven d e k running c v.held)
      (λ victim rest f r c.
        append-IsDriven (without d victim rest) e k running c
          (without-IsHeld d victim rest k running v.held))
      (λ f t fresh c. append-IsDriven d e k running c v.held) latest
      λ events l r c.
        unchanged-IsDriven (record d { events = events }) true k running
          (Replaced-IsDriven d e events k running r v)

post_native_task-IsDriven :
    (d : Dispatcher) (task : Object) (p : Posted) (k running : ℕ)
    → IsDriven d k running
    → post_native_task d task ≡ some p
    → IsDriven p.dispatcher (k + (if p.schedule then 1 else 0)) running
unfolding post_native_task
post_native_task-IsDriven d task p k running v h =
    ground (arith, is_empty-middle d.events [] (native_task task))

discard-IsDriven :
    (d : Dispatcher) (k running : ℕ) → IsDriven d k running → IsDriven (discard d) k running
unfolding discard
discard-IsDriven d k running v = ground arith

close_begin-IsDriven :
    (d : Dispatcher) (k running : ℕ) → IsDriven d k running → IsDriven (close_begin d) k running
unfolding close_begin
close_begin-IsDriven d k running v = ground arith

abbrev pub IsDrivenWorld : World → Type 0
IsDrivenWorld w = IsDriven w.dispatcher (tokens w) w.running

cast : (d : Dispatcher) (k k' running : ℕ) → k ≡ k' → IsDriven d k running → IsDriven d k' running
cast d k k' running e v = ground arith

taken-IsDriven :
    (w : World) (n : ℕ) (alive : Bool) (events : List Event)
    → w.dispatcher.events ≡ events
    → w.ready ≡ suc n
    → IsDrivenWorld w
    → IsDrivenWorld (taken w n (drain_begin alive w.dispatcher))
unfolding drain_begin
taken-IsDriven w n alive [] e h v = ground arith
taken-IsDriven w n alive (x ∷ xs) e h v = ground arith

finished-IsDriven :
    (w : World) (n : ℕ)
    → w.running ≡ suc n
    → IsDrivenWorld w
    → IsDrivenWorld (finished w n (drain_end w.dispatcher))
unfolding drain_end
finished-IsDriven w n h v = ground arith

pub Step-IsDriven : {w w' : World} → Step w w' → IsDrivenWorld w → IsDrivenWorld w'
unfolding native_sink
Step-IsDriven {w} (sinks kind values h) v =
    cast _ _ _ w.running (omega arith) (post-IsDriven w.dispatcher _ _ (tokens w) w.running v)
Step-IsDriven {w} (posts_task task p h) v =
    cast p.dispatcher _ _ w.running (omega arith)
      (post_native_task-IsDriven w.dispatcher task p (tokens w) w.running v h)
Step-IsDriven {w} (schedules n h) v = cast w.dispatcher _ _ w.running (omega arith) v
Step-IsDriven {w} (takes n alive h) v = taken-IsDriven w n alive w.dispatcher.events refl h v
Step-IsDriven {w} (finishes n h) v = finished-IsDriven w n h v
Step-IsDriven {w} closes v = close_begin-IsDriven w.dispatcher _ w.running v
Step-IsDriven {w} discards v = discard-IsDriven w.dispatcher _ w.running v

new-IsDriven : (capacity : ℕ) (frames : Option ℕ) → IsDrivenWorld (initial capacity frames)
unfolding new
new-IsDriven capacity frames = ground arith

pub Reach-IsDriven :
    (capacity : ℕ) (frames : Option ℕ) {w : World}
    → Reach (initial capacity frames) w
    → IsDrivenWorld w
Reach-IsDriven capacity frames here = new-IsDriven capacity frames
Reach-IsDriven capacity frames (next r st) = Step-IsDriven st (Reach-IsDriven capacity frames r)

not_empty {ℓ} : {A : Type ℓ} (xs : List A) → xs ≢ [] → is_empty xs ≡ false
not_empty [] h = absurd (h refl)
not_empty (x ∷ xs) h = refl

-- In every history of a dispatcher, whatever native code posts and whenever the object is closed or
-- discarded: at most one worker is inside its callback, and it is owed to the executor, queued
-- there or taken at most once in all, so that its callbacks never overlap; `executing` says whether
-- a worker is inside.
pub serial_callbacks :
    (capacity : ℕ) (frames : Option ℕ) (w : World)
    → Reach (initial capacity frames) w
    → (w.running ≤ 1)
      × (w.owed + w.ready + w.running ≤ 1)
      × (w.running ≡ (if w.dispatcher.executing then 1 else 0))
serial_callbacks capacity frames w r =
    let v = (Reach-IsDriven capacity frames r).held in (ground (arith, v), v.at_most_one, v.inside)

-- In every history, while an event is queued a worker is in the callback, or the dispatcher is in
-- the executor's queue or about to be put there: exactly one of these, once.
pub no_lost_event :
    (capacity : ℕ) (frames : Option ℕ) (w : World)
    → Reach (initial capacity frames) w
    → w.dispatcher.events ≢ []
    → w.owed + w.ready + w.running ≡ 1
no_lost_event capacity frames w r some_event =
    let v = Reach-IsDriven capacity frames r in
    v.held.driven (v.live (not_empty w.dispatcher.events some_event))

unscheduled :
    (d : Dispatcher) (alive : Bool)
    → d.events ≡ []
    → d.scheduled ≡ false
    → drain_begin alive d ≡ (d, none)
unfolding drain_begin
unscheduled d alive e s = ground arith

-- In every history, a worker that takes the dispatcher and finds no event changes nothing. That is
-- why `_drain_one` can return there with no notification: no thread in `barrier` or `close` waits
-- for that change.
pub silent_drain :
    (capacity : ℕ) (frames : Option ℕ) (w : World) (handler_alive : Bool)
    → Reach (initial capacity frames) w
    → w.dispatcher.events ≡ []
    → 0 < w.ready
    → drain_begin handler_alive w.dispatcher ≡ (w.dispatcher, none)
silent_drain capacity frames w handler_alive r e queued =
    let v = Reach-IsDriven capacity frames r in
    unscheduled w.dispatcher handler_alive e (ground (arith, v.held, v.filled))
