-- ===== src/Dispatch/Bounds.antt =====
-- The queue's limits hold in every history.
use tirtc_client_python.Prelude.{
  ℕ, ◌≤◌, ◌≡◌, refl, sym, subst, Bool, true, false, ◌||◌, ◌&&◌, String, Option, none, some, List,
  [], ◌∷◌, arith, str_eq, str_eq_iff, Bool-cases, inl, inr, length-append, count_if,
  count_if-append, count_if-le, count_if-keep_if-le, length-keep_if, keep_if,
}
use tirtc_client_python.Prelude.Text.{ends_with}
use tirtc_client_python.Objects.{Object}
use tirtc_client_python.Dispatch.{
  Event, Dispatcher, Posted, Delivery, new, native_sink, native_task, post_native_task, drain_begin,
  drain_end, close_begin, discard,
}
use tirtc_client_python.Dispatch.Queue.{is_frame, is_task, is_final}
use tirtc_client_python.Dispatch.Shape.{
  IsValid, IsSinkEvent, is_weak_task, is_weak_final, post-IsValid,
}
use tirtc_client_python.Dispatch.System.{
  World, initial, taken, Step, sinks, posts_task, schedules, takes, finishes, closes, discards,
  Reach, here, next,
}

new-IsValid : (capacity : ℕ) (frames : Option ℕ) → IsValid (new capacity frames)
unfolding new
new-IsValid capacity frames = ground arith

-- The kinds that the sinks post with `latest` are neither frames nor final.
-- A text that passes the test against `k` is `k`.
pub by_kind : (P : String → Type 0) (kind k : String) → str_eq kind k ≡ true → P k → P kind
by_kind P kind k h p = subst P (sym ((str_eq_iff kind k).0 h)) p

plain_kind :
    (kind : String)
    → (str_eq kind "state" || str_eq kind "time") ≡ true
    → (ends_with kind "_frame" ≡ false) × ((str_eq kind "completed" || str_eq kind "error") ≡ false)
unfolding ends_with
plain_kind kind h = elim (Bool-cases (str_eq kind "state")) [
  | inl e ↦ by_kind IsPlain kind "state" e (refl, refl)
  | inr e ↦ by_kind IsPlain kind "time" (ground arith) (refl, refl)
]
  where
    IsPlain : String → Type 0
    IsPlain k =
        (ends_with k "_frame" ≡ false) × ((str_eq k "completed" || str_eq k "error") ≡ false)

update_kind :
    (kind : String)
    → ((str_eq kind "state" || str_eq kind "time")
        && (str_eq kind "completed" || str_eq kind "error"))
      ≡ false
update_kind kind = ground (arith, plain_kind kind)

-- The event that `native_sink` makes of its arguments.
abbrev pub sink_event : String → List Object → Event
sink_event kind values = record {
  kind = kind;
  values = values;
  frame = ends_with kind "_frame";
  terminal = str_eq kind "completed" || str_eq kind "error";
}

pub sink-IsSinkEvent :
    (kind : String) (values : List Object)
    → str_eq kind "native_task" ≡ false
    → IsSinkEvent (sink_event kind values) (str_eq kind "state" || str_eq kind "time")
sink-IsSinkEvent kind values h = record {
  no_task = h;
  final = refl;
  latest_plain = plain_kind kind;
  latest_update = λ l. l;
  update_plain = update_kind kind;
}

native_sink-IsValid :
    (d : Dispatcher) (kind : String) (values : List Object)
    → IsValid d
    → str_eq kind "native_task" ≡ false
    → IsValid (native_sink d kind values).dispatcher
unfolding native_sink
native_sink-IsValid d kind values v h = post-IsValid d _ _ v (sink-IsSinkEvent kind values h)

post_native_task-IsValid :
    (d : Dispatcher) (task : Object) (p : Posted)
    → IsValid d
    → post_native_task d task ≡ some p
    → IsValid p.dispatcher
unfolding post_native_task
post_native_task-IsValid d task p v h = ground (
  arith,
  length-append d.events (native_task task ∷ []),
  count_if-append is_frame d.events (native_task task ∷ []),
  count_if-append is_task d.events (native_task task ∷ []),
  count_if-append is_weak_task d.events (native_task task ∷ []),
  count_if-append is_weak_final d.events (native_task task ∷ []),
  count_if-append (is_final "completed") d.events (native_task task ∷ []),
  count_if-append (is_final "error") d.events (native_task task ∷ []),
  count_if-le is_task d.events,
)

-- No kind is both final kinds.
one_final : (e : Event) → is_final "completed" e ≡ true → is_final "error" e ≡ false
one_final e h =
    by_kind (λ k. (str_eq k "error" && e.terminal) ≡ false) e.kind "completed" (ground arith) refl

drain_begin-IsValid_at :
    (alive : Bool) (d : Dispatcher) (events : List Event)
    → d.events ≡ events
    → IsValid d
    → IsValid (drain_begin alive d).0
unfolding drain_begin
drain_begin-IsValid_at alive d [] e v = ground (arith)
drain_begin-IsValid_at alive d (x ∷ xs) e v = ground (arith, one_final x)

drain_end-IsValid : (d : Dispatcher) → IsValid d → IsValid (drain_end d).0
unfolding drain_end
drain_end-IsValid d v = ground arith

close_begin-IsValid : (d : Dispatcher) → IsValid d → IsValid (close_begin d)
unfolding close_begin
close_begin-IsValid d v = ground arith

task_frames : (xs : List Event) → count_if is_frame (keep_if is_task xs) ≤ count_if is_weak_task xs
task_frames [] = omega arith
task_frames (x ∷ xs) = ground (arith, task_frames xs)

discard-IsValid : (d : Dispatcher) → IsValid d → IsValid (discard d)
unfolding discard
discard-IsValid d v = ground (
  arith,
  task_frames d.events,
  count_if-keep_if-le is_weak_task is_task d.events,
  count_if-keep_if-le is_task is_task d.events,
  count_if-keep_if-le is_weak_final is_task d.events,
  length-keep_if is_task d.events,
)

drain_begin-IsValid : (alive : Bool) (d : Dispatcher) → IsValid d → IsValid (drain_begin alive d).0
drain_begin-IsValid alive d v = drain_begin-IsValid_at alive d d.events refl v

pub taken_dispatcher :
    (w : World) (n : ℕ) (r : Dispatcher × Option Delivery) → (taken w n r).dispatcher ≡ r.0
taken_dispatcher w n (d, none) = refl
taken_dispatcher w n (d, some delivery) = refl

pub Step-IsValid : {w w' : World} → Step w w' → IsValid w.dispatcher → IsValid w'.dispatcher
Step-IsValid {w} (sinks kind values h) v = native_sink-IsValid w.dispatcher kind values v h
Step-IsValid {w} (posts_task task p h) v = post_native_task-IsValid w.dispatcher task p v h
Step-IsValid (schedules n h) v = v
Step-IsValid {w} (takes n alive h) v =
    rw (taken_dispatcher w n (drain_begin alive w.dispatcher))
      (drain_begin-IsValid alive w.dispatcher v)
Step-IsValid {w} (finishes n h) v = drain_end-IsValid w.dispatcher v
Step-IsValid {w} closes v = close_begin-IsValid w.dispatcher v
Step-IsValid {w} discards v = discard-IsValid w.dispatcher v

pub Reach-IsValid :
    (capacity : ℕ) (frames : Option ℕ) {w : World}
    → Reach (initial capacity frames) w
    → IsValid w.dispatcher
Reach-IsValid capacity frames here = new-IsValid capacity frames
Reach-IsValid capacity frames (next r st) = Step-IsValid st (Reach-IsValid capacity frames r)
