-- ===== src/Dispatch/Tasks.antt =====
-- Native tasks are neither lost, nor repeated, nor reordered.
use mathlib.Core.List.{append-nil, append_assoc}
use tirtc_client_python.Prelude.{
  ℕ, ◌≡◌, refl, sym, ap, ◌∙◌, Bool, false, String, Option, some, List, [], ◌∷◌, ◌++◌, arith, str_eq,
  str_eq_iff, if◌then◌else◌, count_if, count_if-middle, keep_if, if-cases,
}
use tirtc_client_python.Objects.{Object}
use tirtc_client_python.Dispatch.{
  Event, Dispatcher, Posted, new, append, unchanged, drop_frame, without, marked, post, native_sink,
  native_task, post_native_task, drain_begin, drain_end, close_begin, discard, delivery,
}
use tirtc_client_python.Dispatch.Cases.{post-cases}
use tirtc_client_python.Dispatch.Queue.{is_task, Replaced, Evicted}
use tirtc_client_python.Dispatch.Shape.{is_weak_task, IsValid}
use tirtc_client_python.Dispatch.Bounds.{Reach-IsValid}
use tirtc_client_python.Dispatch.System.{
  World, initial, posted, taken, task_of, Step, sinks, posts_task, schedules, takes, finishes,
  closes, discards, Reach, here, next,
}

abbrev pub payload : List Object → List Object
payload [] = []
payload (x ∷ values) = x ∷ []

-- The native tasks in the queue, oldest first.
abbrev pub queued : List Event → List Object
queued [] = []
queued (e ∷ events) = (if is_task e then payload e.values else []) ++ queued events

queued-append : (xs ys : List Event) → queued (xs ++ ys) ≡ queued xs ++ queued ys
queued-append [] ys = refl
queued-append (x ∷ xs) ys =
    rw (queued-append xs ys)
      (sym (append_assoc (if is_task x then payload x.values else []) (queued xs) (queued ys)))

queued-skip :
    (xs ys : List Event) (x : Event) → is_task x ≡ false → queued (xs ++ x ∷ ys) ≡ queued (xs ++ ys)
queued-skip [] ys x h = rw h
queued-skip (y ∷ xs) ys x h = rw (queued-skip xs ys x h)

Replaced-queued :
    (xs ys : List Event) (e : Event) → Replaced xs e ys → is_task e ≡ false → queued ys ≡ queued xs
Replaced-queued xs ys e r h =
    let kinds : r.old.kind ≡ e.kind = (str_eq_iff r.old.kind e.kind).0 r.same_kind in
    let old : is_task r.old ≡ false = ap (λ k. str_eq k "native_task") kinds ∙ h in
    ap queued r.becomes
    ∙ queued-skip r.before r.after e h
    ∙ sym (ap queued r.was ∙ queued-skip r.before r.after r.old old)

Evicted-queued :
    (xs ys : List Event) (v : Event)
    → Evicted xs v ys
    → count_if is_weak_task xs ≡ 0
    → queued ys ≡ queued xs
Evicted-queued xs ys v r none_weak =
    let old : is_task v ≡ false =
      ground (arith, r.was, r.not_terminal, count_if-middle is_weak_task r.before v r.after) in
    ap queued r.becomes ∙ sym (ap queued r.was ∙ queued-skip r.before r.after v old)

append-queued :
    (d : Dispatcher) (e : Event)
    → is_task e ≡ false
    → queued (append d e).dispatcher.events ≡ queued d.events
unfolding append
append-queued d e h =
    queued-append d.events (marked d e ∷ []) ∙ ground (arith, append-nil (queued d.events))

post-queued :
    (d : Dispatcher) (e : Event) (latest : Bool)
    → count_if is_weak_task d.events ≡ 0
    → is_task e ≡ false
    → queued (post d e latest).dispatcher.events ≡ queued d.events
unfolding unchanged drop_frame without
post-queued d e latest strong h =
    post-cases (λ p. queued p.dispatcher.events ≡ queued d.events) d e (λ why. refl) (λ f c. refl)
      (λ room fits c. append-queued d e h)
      (λ victim rest f r c.
        append-queued (without d victim rest) e h ∙ Evicted-queued d.events rest victim r strong)
      (λ f t fresh c. append-queued d e h) latest
      λ events l r c. Replaced-queued d.events events e r h

queued-keep_if : (xs : List Event) → queued (keep_if is_task xs) ≡ queued xs
queued-keep_if [] = refl
queued-keep_if (x ∷ xs) = ground (arith, queued-keep_if xs)

abbrev IsTracked : World → Type 0
IsTracked w = w.accepted ≡ w.started ++ queued w.dispatcher.events

posts_task-IsTracked :
    (w : World) (task : Object) (p : Posted)
    → post_native_task w.dispatcher task ≡ some p
    → IsTracked w
    → IsTracked (posted w p (task ∷ []))
unfolding post_native_task
posts_task-IsTracked w task p h v = ground (
  arith,
  queued-append w.dispatcher.events (native_task task ∷ []),
  append_assoc w.started (queued w.dispatcher.events) (task ∷ []),
)

task_of-delivery :
    (alive : Bool) (x : Event) (values : List Object)
    → x.values ≡ values
    → task_of (delivery alive x) ≡ (if is_task x then payload x.values else [])
unfolding delivery
task_of-delivery alive x [] e = ground arith
task_of-delivery alive x (a ∷ values) e = ground arith

takes-IsTracked :
    (w : World) (n : ℕ) (alive : Bool) (events : List Event)
    → w.dispatcher.events ≡ events
    → IsTracked w
    → IsTracked (taken w n (drain_begin alive w.dispatcher))
unfolding drain_begin
takes-IsTracked w n alive [] e v = ground arith
takes-IsTracked w n alive (x ∷ xs) e v = ground (
  arith,
  task_of-delivery alive x x.values refl,
  append_assoc w.started (task_of (delivery alive x)) (queued xs),
)

sinks-IsTracked :
    (w : World) (kind : String) (values : List Object)
    → IsValid w.dispatcher
    → str_eq kind "native_task" ≡ false
    → IsTracked w
    → IsTracked (posted w (native_sink w.dispatcher kind values) [])
unfolding native_sink
sinks-IsTracked w kind values valid h v =
    if-cases
      (λ tasks.
        tasks ≡ w.started ++ queued (native_sink w.dispatcher kind values).dispatcher.events)
      _ (λ _. append-nil w.accepted ∙ same) (λ _. same)
  where
    same : w.accepted ≡ w.started ++ queued (native_sink w.dispatcher kind values).dispatcher.events
    same = v ∙ ap (◌++◌ w.started) (sym (post-queued w.dispatcher _ _ valid.tasks h))

Step-IsTracked : {w w' : World} → Step w w' → IsValid w.dispatcher → IsTracked w → IsTracked w'
unfolding drain_end close_begin discard
Step-IsTracked {w} (sinks kind values h) valid v = sinks-IsTracked w kind values valid h v
Step-IsTracked {w} (posts_task task p h) valid v = posts_task-IsTracked w task p h v
Step-IsTracked (schedules n h) valid v = v
Step-IsTracked {w} (takes n alive h) valid v = takes-IsTracked w n alive w.dispatcher.events refl v
Step-IsTracked (finishes n h) valid v = v
Step-IsTracked closes valid v = v
Step-IsTracked {w} discards valid v =
    v ∙ ap (◌++◌ w.started) (sym (queued-keep_if w.dispatcher.events))

-- In every history of a dispatcher, whatever native code posts and even if the object is discarded,
-- the native tasks taken in so far are those begun so far followed by those still queued: each is
-- begun once, in the order of its arrival, and none is dropped to make room.
pub native_tasks_kept :
    (capacity : ℕ) (frames : Option ℕ) (w : World)
    → Reach (initial capacity frames) w
    → w.accepted ≡ w.started ++ queued w.dispatcher.events
unfolding new
native_tasks_kept capacity frames w here = refl
native_tasks_kept capacity frames w (next {t = v} r st) =
    Step-IsTracked st (Reach-IsValid capacity frames r) (native_tasks_kept capacity frames v r)
