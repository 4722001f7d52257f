-- ===== src/Dispatch/Limits.antt =====
-- The limits given to `__init__` are never changed, and hold for the queue in every history.
use tirtc_client_python.Prelude.{
  ℕ, ◌+◌, ◌≤◌, ◌≡◌, refl, ◌∙◌, Bool, Option, some, [], ◌∷◌, List, arith, length, count_if, get_or,
  min,
}
use tirtc_client_python.Objects.{Object}
use tirtc_client_python.Dispatch.{
  Event, Dispatcher, Posted, new, append, unchanged, drop_frame, without, post, native_sink,
  post_native_task, drain_begin, drain_end, close_begin, discard,
}
use tirtc_client_python.Dispatch.Cases.{post-cases}
use tirtc_client_python.Dispatch.Queue.{is_frame, is_task, is_final}
use tirtc_client_python.Dispatch.Shape.{IsValid}
use tirtc_client_python.Dispatch.Bounds.{Reach-IsValid, taken_dispatcher}
use tirtc_client_python.Dispatch.System.{
  World, initial, Step, sinks, posts_task, schedules, takes, finishes, closes, discards, Reach,
  here, next,
}

abbrev SameLimits : Dispatcher → Dispatcher → Type 0
SameLimits d d' = (d'.capacity ≡ d.capacity) × (d'.frame_capacity ≡ d.frame_capacity)

post-SameLimits :
    (d : Dispatcher) (e : Event) (latest : Bool) → SameLimits d (post d e latest).dispatcher
unfolding append unchanged drop_frame without
post-SameLimits d e latest =
    post-cases (λ r. SameLimits d r.dispatcher) d e (λ why. (refl, refl)) (λ f c. (refl, refl))
      (λ r l c. (refl, refl)) (λ v rest f r c. (refl, refl)) (λ f t fresh c. (refl, refl)) latest
      (λ events l r c. (refl, refl))

post_native_task-SameLimits :
    (d : Dispatcher) (task : Object) (p : Posted)
    → post_native_task d task ≡ some p
    → SameLimits d p.dispatcher
unfolding post_native_task
post_native_task-SameLimits d task p h = ground arith

drain_begin-SameLimits :
    (alive : Bool) (d : Dispatcher) (events : List Event)
    → d.events ≡ events
    → SameLimits d (drain_begin alive d).0
unfolding drain_begin
drain_begin-SameLimits alive d [] e = ground arith
drain_begin-SameLimits alive d (x ∷ xs) e = ground arith

Step-SameLimits : {w w' : World} → Step w w' → SameLimits w.dispatcher w'.dispatcher
unfolding native_sink drain_end close_begin discard
Step-SameLimits {w} (sinks kind values h) = post-SameLimits w.dispatcher _ _
Step-SameLimits {w} (posts_task task p h) = post_native_task-SameLimits w.dispatcher task p h
Step-SameLimits (schedules n h) = (refl, refl)
Step-SameLimits {w} (takes n alive h) =
    rw (taken_dispatcher w n (drain_begin alive w.dispatcher))
      (drain_begin-SameLimits alive w.dispatcher w.dispatcher.events refl)
Step-SameLimits (finishes n h) = (refl, refl)
Step-SameLimits closes = (refl, refl)
Step-SameLimits discards = (refl, refl)

Reach-SameLimits :
    (capacity : ℕ) (frames : Option ℕ) {w : World}
    → Reach (initial capacity frames) w
    → (w.dispatcher.capacity ≡ capacity) × (w.dispatcher.frame_capacity ≡ get_or frames capacity)
unfolding new
Reach-SameLimits capacity frames here = (refl, refl)
Reach-SameLimits capacity frames (next r st) =
    let (a, b) = Step-SameLimits st in
    let (p, q) = Reach-SameLimits capacity frames r in (a ∙ p, b ∙ q)

limits :
    (d : Dispatcher) (capacity frames : ℕ)
    → IsValid d
    → d.capacity ≡ capacity
    → d.frame_capacity ≡ frames
    → (length d.events
        ≤ capacity
          + min 1 (count_if (is_final "completed") d.events)
          + min 1 (count_if (is_final "error") d.events))
      × (count_if is_frame d.events ≤ frames)
      × (count_if is_task d.events ≤ capacity)
      × (d.frame_count ≡ count_if is_frame d.events)
limits d capacity frames v p q = ground arith

-- In every history of a dispatcher that native code fills through the sinks and through
-- `post_native_task`: the queue holds at most `capacity` events, with one more for each of the two
-- final kinds, completed and error, of which a terminal event is queued; at most `frame_capacity`
-- of them are frames (`capacity`, if none was given), at most `capacity` are native tasks, and
-- `frame_count` is the number of queued frames.
pub queue_bounded :
    (capacity : ℕ) (frames : Option ℕ) (w : World)
    → Reach (initial capacity frames) w
    → let d = w.dispatcher in
      (length d.events
        ≤ capacity
          + min 1 (count_if (is_final "completed") d.events)
          + min 1 (count_if (is_final "error") d.events))
      × (count_if is_frame d.events ≤ get_or frames capacity)
      × (count_if is_task d.events ≤ capacity)
      × (d.frame_count ≡ count_if is_frame d.events)
queue_bounded capacity frames w r =
    let (p, q) = Reach-SameLimits capacity frames r in
    limits w.dispatcher capacity (get_or frames capacity) (Reach-IsValid capacity frames r) p q
