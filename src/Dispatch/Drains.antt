-- ===== src/Dispatch/Drains.antt =====
-- The worker's passes one after another: the queue drains in order, and then `barrier` and `close`
-- go on.
use tirtc_client_python.Prelude.{
  ℕ, zero, suc, ◌-◌, ◌≡◌, refl, ap, Bool, true, false, Option, none, some, List, [], ◌∷◌, map,
  arith, if◌then◌else◌, length,
}
use tirtc_client_python.Dispatch.Tokens.{IsDriven, Reach-IsDriven}
use tirtc_client_python.Dispatch.System.{World, initial, Reach}
use tirtc_client_python.Dispatch.{
  Event, Dispatcher, Delivery, delivery, take_event, drain_begin, drain_end, barrier_passes,
  close_passes,
}

-- `n` passes of a worker with no post in between; the handler lives, or is gone, throughout.
pub passes : ℕ → Bool → Dispatcher → List Delivery × Dispatcher
passes zero handler_alive d = ([], d)
passes (suc n) handler_alive d =
    let (d', taken) = drain_begin handler_alive d in
    elim taken [
      | none ↦ ([], d')
      | some delivered ↦
          let (later, last) = passes n handler_alive (drain_end d').0 in (delivered ∷ later, last)
    ]

-- After the pass that takes `x`, with `xs` behind it.
abbrev passed : Dispatcher → Event → List Event → Dispatcher
passed d x xs =
    (drain_end (record d {
      events = xs;
      frame_count = if x.frame then d.frame_count - 1 else d.frame_count;
      executing = true;
    })).0

passes-cons :
    (n : ℕ) (alive : Bool) (d : Dispatcher) (x : Event) (xs : List Event)
    → d.events ≡ x ∷ xs
    → passes (suc n) alive d
      ≡ (delivery alive x ∷ (passes n alive (passed d x xs)).0, (passes n alive (passed d x xs)).1)
unfolding passes drain_begin
passes-cons n alive d x xs e = rw (e, take_event)

passed-events : (d : Dispatcher) (x : Event) (xs : List Event) → (passed d x xs).events ≡ xs
unfolding drain_end
passed-events d x xs = refl

IsQuiet : Dispatcher → Type 0
IsQuiet d = (d.events ≡ []) × (d.executing ≡ false) × (d.scheduled ≡ false)

drained :
    (alive : Bool) (d : Dispatcher) (events : List Event)
    → d.events ≡ events
    → (events ≡ [] → IsQuiet d)
    → ((passes (length events) alive d).0 ≡ map (delivery alive) events)
      × IsQuiet (passes (length events) alive d).1
unfolding passes drain_end IsQuiet
drained alive d [] e quiet = (refl, quiet refl)
drained alive d (x ∷ xs) e quiet =
    let rest =
      drained alive (passed d x xs) xs (passed-events d x xs)
        (λ none_left. (none_left, refl, rw none_left)) in
    rw (passes-cons (length xs) alive d x xs e) (ap (◌∷◌ (delivery alive x)) rest.0, rest.1)

quiet_at_rest :
    (d : Dispatcher) (k running : ℕ)
    → IsDriven d k running
    → running ≡ 0
    → (d.executing ≡ false) × (d.events ≡ [] → d.scheduled ≡ false)
quiet_at_rest d k running v h = (ground (arith, v.held), λ e. ground (arith, v.held, v.filled))

IsQuiet-passes : (d : Dispatcher) → IsQuiet d → (barrier_passes d ≡ true) × (close_passes d ≡ true)
unfolding IsQuiet barrier_passes close_passes
IsQuiet-passes d (e, x, s) = (rw (e, x, s), rw (e, x))

at_rest :
    (d : Dispatcher)
    → (d.executing ≡ false) × (d.events ≡ [] → d.scheduled ≡ false)
    → d.events ≡ []
    → IsQuiet d
unfolding IsQuiet
at_rest d (x, s) e = (e, x, s e)

-- In every history in which no worker is inside the callback, as many passes of a worker as events
-- are queued, with no post in between, deliver all of them in the order of the queue, and then the
-- conditions that `barrier` and `close` wait for hold.
pub queue_drains :
    (capacity : ℕ) (frames : Option ℕ) (w : World) (handler_alive : Bool)
    → Reach (initial capacity frames) w
    → w.running ≡ 0
    → let (delivered, d) = passes (length w.dispatcher.events) handler_alive w.dispatcher in
      (delivered ≡ map (delivery handler_alive) w.dispatcher.events)
      × (barrier_passes d ≡ true)
      × (close_passes d ≡ true)
queue_drains capacity frames w handler_alive r h =
    let rest = quiet_at_rest w.dispatcher _ _ (Reach-IsDriven capacity frames r) h in
    let (delivered, quiet) =
      drained handler_alive w.dispatcher w.dispatcher.events refl (at_rest w.dispatcher rest) in
    let (b, c) = IsQuiet-passes _ quiet in (delivered, b, c)
