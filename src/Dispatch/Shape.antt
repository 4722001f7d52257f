-- ===== src/Dispatch/Shape.antt =====
-- The invariant of one dispatcher, and that the sections of native callers and of the worker keep
-- it.
use tirtc_client_python.Prelude.{
  ℕ, ◌+◌, ◌≤◌, ◌<◌, ◌≡◌, ap, subst, Bool, true, false, not, ◌&&◌, ◌||◌, String, List, [], ◌∷◌, ◌++◌,
  arith, str_eq, str_eq_iff, if◌then◌else◌, length, length-append, length-middle, count_if,
  count_if-append, count_if-middle, min, ◌⊎◌, inl, inr,
}
use tirtc_client_python.Dispatch.{
  Event, Dispatcher, post, append, unchanged, drop_frame, without, marked,
}
use tirtc_client_python.Dispatch.Cases.{post-cases}
use tirtc_client_python.Dispatch.Queue.{is_frame, is_task, is_final, Replaced, Evicted}

-- A native task that could be dropped.
abbrev pub is_weak_task : Event → Bool
is_weak_task e = is_task e && (e.frame || not e.terminal)

-- A terminal event that a later update of its kind could replace.
abbrev pub is_weak_final : Event → Bool
is_weak_final e = (str_eq e.kind "state" || str_eq e.kind "time") && e.terminal

-- The most that the queue may hold: a final event of each kind may stand above the capacity.
abbrev pub allowance : Dispatcher → ℕ
allowance d =
    d.capacity
    + min 1 (count_if (is_final "completed") d.events)
    + min 1 (count_if (is_final "error") d.events)

pub record IsValid (d : Dispatcher) : Type 0 where
  pub counted : d.frame_count ≡ count_if is_frame d.events
  pub framed : d.frame_count ≤ d.frame_capacity
  pub tasks : count_if is_weak_task d.events ≡ 0
  pub finals : count_if is_weak_final d.events ≡ 0
  pub tasks_fit : count_if is_task d.events ≤ d.capacity
  pub fits : length d.events ≤ allowance d

-- What the sinks say of an event and of `latest`.
pub record IsSinkEvent (e : Event) (latest : Bool) : Type 0 where
  pub no_task : is_task e ≡ false
  pub final : e.terminal ≡ (str_eq e.kind "completed" || str_eq e.kind "error")
  pub latest_plain : latest ≡ true → (e.frame ≡ false) × (e.terminal ≡ false)
  pub latest_update : latest ≡ true → (str_eq e.kind "state" || str_eq e.kind "time") ≡ true
  pub update_plain : is_weak_final e ≡ false

module _ (xs ys : List Event) (e : Event) (p : Event → Bool) where
  Replaced-count : (r : Replaced xs e ys) → p r.old ≡ p e → count_if p ys ≡ count_if p xs
  Replaced-count r same = ground (
    arith,
    r.was,
    r.becomes,
    count_if-middle p r.before r.old r.after,
    count_if-middle p r.before e r.after,
  )

  Evicted-count : Evicted xs e ys → count_if p xs ≡ count_if p ys + (if p e then 1 else 0)
  Evicted-count r = ground (
    arith,
    r.was,
    r.becomes,
    count_if-middle p r.before e r.after,
    count_if-append p r.before r.after,
  )

Replaced-length : (xs ys : List Event) (e : Event) → Replaced xs e ys → length ys ≡ length xs
Replaced-length xs ys e r = ground (
  arith,
  r.was,
  r.becomes,
  length-middle r.before r.old r.after,
  length-middle r.before e r.after,
)

Evicted-length : (xs ys : List Event) (v : Event) → Evicted xs v ys → length xs ≡ length ys + 1
Evicted-length xs ys v r =
    ground
      (arith, r.was, r.becomes, length-middle r.before v r.after, length-append r.before r.after)

-- The length after a final event of kind `k` is appended beyond the capacity.
append_final :
    (d : Dispatcher) (e : Event) (k : String)
    → str_eq e.kind k ≡ true
    → e.terminal ≡ true
    → count_if (is_final e.kind) d.events ≡ 0
    → (count_if (is_final k) d.events ≡ 0)
      × (count_if (is_final k) (d.events ++ marked d e ∷ []) ≡ 1)
unfolding marked
append_final d e k same t fresh =
    let fresh' : count_if (is_final k) d.events ≡ 0 =
      subst (λ j. count_if (is_final j) d.events ≡ 0) ((str_eq_iff e.kind k).0 same) fresh in
    (fresh', ground (arith, count_if-append (is_final k) d.events (marked d e ∷ [])))

module _ (d : Dispatcher) (e : Event) (latest : Bool) (v : IsValid d)
    (s : IsSinkEvent e latest) where
  append-IsValid :
      (e.frame ≡ true → d.frame_count < d.frame_capacity)
      → (length d.events < allowance d)
        ⊎ ((e.terminal ≡ true) × (count_if (is_final e.kind) d.events ≡ 0))
      → IsValid (append d e).dispatcher
  unfolding append
  append-IsValid room fits = record {
    counted = ground (arith, count_if-append is_frame d.events (marked d e ∷ []));
    framed = ground arith;
    tasks = ground (arith, count_if-append is_weak_task d.events (marked d e ∷ []));
    finals = ground (arith, count_if-append is_weak_final d.events (marked d e ∷ []));
    tasks_fit = ground (arith, count_if-append is_task d.events (marked d e ∷ []));
    fits = ground (
      arith,
      length-append d.events (marked d e ∷ []),
      count_if-append (is_final "completed") d.events (marked d e ∷ []),
      count_if-append (is_final "error") d.events (marked d e ∷ []),
      append_final d e "completed",
      append_final d e "error",
    );
  }

-- An eviction keeps the queue valid and leaves room for one event.
without-IsValid :
    (d : Dispatcher) (victim : Event) (rest : List Event)
    → IsValid d
    → Evicted d.events victim rest
    → IsValid (without d victim rest) × (length rest < allowance (without d victim rest))
unfolding without
without-IsValid d victim rest v r =
    let frames = Evicted-count d.events rest victim is_frame r in
    let weak = Evicted-count d.events rest victim is_weak_task r in
    let final = Evicted-count d.events rest victim is_weak_final r in
    let task = Evicted-count d.events rest victim is_task r in
    let completed = Evicted-count d.events rest victim (is_final "completed") r in
    let error = Evicted-count d.events rest victim (is_final "error") r in
    let shorter = Evicted-length d.events rest victim r in
    (
      record {
        counted = ground (arith, r.not_terminal);
        framed = ground arith;
        tasks = ground arith;
        finals = ground arith;
        tasks_fit = ground arith;
        fits = ground (arith, r.not_terminal);
      },
      ground (arith, r.not_terminal),
    )

unchanged-IsValid : (d : Dispatcher) (b : Bool) → IsValid d → IsValid (unchanged d b).dispatcher
unfolding unchanged
unchanged-IsValid d b v = v

drop_frame-IsValid : (d : Dispatcher) → IsValid d → IsValid (drop_frame d).dispatcher
unfolding drop_frame
drop_frame-IsValid d v = ground arith

-- The event that an update replaces.
pub old_update :
    (d : Dispatcher) (e : Event) (events : List Event)
    → IsValid d
    → (r : Replaced d.events e events) → is_weak_final r.old ≡ false
old_update d e events v r =
    ground (arith, r.was, v.finals, count_if-middle is_weak_final r.before r.old r.after)

Replaced-IsValid :
    (d : Dispatcher) (e : Event) (events : List Event) (latest : Bool)
    → IsValid d
    → IsSinkEvent e latest
    → latest ≡ true
    → Replaced d.events e events
    → IsValid (record d { events = events })
Replaced-IsValid d e events latest v s l r =
    let plain = s.latest_plain l in
    let named : (k : String) → str_eq r.old.kind k ≡ str_eq e.kind k =
      λ k. ap (λ j. str_eq j k) ((str_eq_iff r.old.kind e.kind).0 r.same_kind) in
    let task = named "native_task" in
    let state = named "state" in
    let time = named "time" in
    let completed = named "completed" in
    let error = named "error" in
    let count = Replaced-count d.events events e in
    record {
      counted = ground (arith, count is_frame r (ground (arith, r.no_frame)));
      framed = v.framed;
      tasks = ground (arith, count is_weak_task r (ground arith));
      finals = ground (
        arith,
        count is_weak_final r (ground (arith, old_update d e events v r, s.update_plain)),
      );
      tasks_fit = ground (arith, count is_task r task);
      fits = ground (
        arith,
        Replaced-length d.events events e r,
        count (is_final "completed") r (ground arith),
        count (is_final "error") r (ground arith),
      );
    }

-- A sink's post keeps the dispatcher valid.
pub post-IsValid :
    (d : Dispatcher) (e : Event) (latest : Bool)
    → IsValid d
    → IsSinkEvent e latest
    → IsValid (post d e latest).dispatcher
unfolding without
post-IsValid d e latest v s =
    post-cases (λ r. IsValid r.dispatcher) d e (λ why. unchanged-IsValid d false v)
      (λ f c. drop_frame-IsValid d v)
      (λ room fits c. append-IsValid d e latest v s room (inl (omega arith)))
      (λ victim rest f r c.
        let (v', roomy) = without-IsValid d victim rest v r in
        append-IsValid (without d victim rest) e latest v' s (λ g. absurd (ground arith))
          (inl roomy))
      (λ f t fresh c. append-IsValid d e latest v s (λ g. absurd (ground arith)) (inr (t, fresh)))
      latest
      (λ events l r c.
        unchanged-IsValid (record d { events = events }) true
          (Replaced-IsValid d e events latest v s l r))
