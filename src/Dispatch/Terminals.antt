-- ===== src/Dispatch/Terminals.antt =====
-- The terminal events, `completed` and `error`, and the native tasks are never dropped for room.
use mathlib.Core.List.{append-nil}
use tirtc_client_python.Prelude.{
  ℕ, ◌≡◌, refl, ap, sym, ◌∙◌, Bool, true, false, ◌&&◌, ◌||◌, String, Option, List, [], ◌∷◌, ◌++◌,
  ◌⊎◌, inl, inr, arith, str_eq, str_eq_iff, Bool-cases, if◌then◌else◌, any, keep_if, keep_if-append,
}
use tirtc_client_python.Prelude.Text.{ends_with}
use tirtc_client_python.Objects.{Object}
use tirtc_client_python.Dispatch.{
  Event, Dispatcher, Posted, append, unchanged, drop_frame, without, marked, post, native_sink,
}
use tirtc_client_python.Dispatch.Cases.{post-cases}
use tirtc_client_python.Dispatch.Queue.{is_terminal, Replaced, Evicted}
use tirtc_client_python.Dispatch.Shape.{IsValid, IsSinkEvent, old_update}
use tirtc_client_python.Dispatch.Bounds.{by_kind, sink_event, sink-IsSinkEvent, Reach-IsValid}
use tirtc_client_python.Dispatch.System.{World, initial, Reach}

-- The terminal events of the queue, oldest first.
abbrev pub terminals : Dispatcher → List Event
terminals d = keep_if is_terminal d.events

-- `p` keeps the terminal events, and adds `e` if it is one and was taken in.
abbrev Keeps : Dispatcher → Event → Posted → Type 0
Keeps d e p =
    terminals p.dispatcher ≡ terminals d ++ (if p.accepted && e.terminal then e ∷ [] else [])

keep_if-skip :
    (xs ys : List Event) (x : Event)
    → x.terminal ≡ false
    → keep_if is_terminal (xs ++ x ∷ ys) ≡ keep_if is_terminal (xs ++ ys)
keep_if-skip [] ys x h = rw h
keep_if-skip (y ∷ xs) ys x h = rw (keep_if-skip xs ys x h)

module _ (d : Dispatcher) (e : Event) (latest : Bool) (v : IsValid d) (s : IsSinkEvent e latest)
    (plain : e.terminal ≡ true → e.frame ≡ false) where
  append-Keeps : Keeps d e (append d e)
  unfolding append
  append-Keeps =
      keep_if-append is_terminal d.events (marked d e ∷ [])
      ∙ ground (arith, append-nil (terminals d))

  Replaced-Keeps :
      (events : List Event)
      → latest ≡ true
      → Replaced d.events e events
      → Keeps d e (unchanged (record d { events = events }) true)
  unfolding unchanged
  Replaced-Keeps events l r =
      let new_plain : e.terminal ≡ false = (s.latest_plain l).1 in
      let kinds : r.old.kind ≡ e.kind = (str_eq_iff r.old.kind e.kind).0 r.same_kind in
      let update : (str_eq r.old.kind "state" || str_eq r.old.kind "time") ≡ true =
        ap (λ k. str_eq k "state" || str_eq k "time") kinds ∙ s.latest_update l in
      let old_plain : r.old.terminal ≡ false = ground (arith, old_update d e events v r) in
      let kept : terminals (record d { events = events }) ≡ terminals d =
        ap (keep_if is_terminal) r.becomes
        ∙ keep_if-skip r.before r.after e new_plain
        ∙ sym (ap (keep_if is_terminal) r.was ∙ keep_if-skip r.before r.after r.old old_plain) in
      ground (arith, append-nil (terminals d))

  squeezed-Keeps :
      (victim : Event) (rest : List Event)
      → Evicted d.events victim rest
      → Keeps d e (append (without d victim rest) e)
  unfolding append without
  squeezed-Keeps victim rest r =
      let kept : keep_if is_terminal rest ≡ terminals d =
        ap (keep_if is_terminal) r.becomes
        ∙ sym (
            ap (keep_if is_terminal) r.was ∙ keep_if-skip r.before r.after victim r.not_terminal) in
      keep_if-append is_terminal rest (marked (without d victim rest) e ∷ [])
      ∙ ground (arith, append-nil (terminals d))

  post-Keeps : Keeps d e (post d e latest)
  unfolding unchanged drop_frame
  post-Keeps =
      post-cases (Keeps d e) d e (λ why. sym (append-nil (terminals d)))
        (λ f c. sym (append-nil (terminals d))) (λ room fits c. append-Keeps)
        (λ victim rest f r c. squeezed-Keeps victim rest r) (λ f t fresh c. append-Keeps) latest
        λ events l r c. Replaced-Keeps events l r

-- Why a terminal event can be turned away.
post-refusal :
    (d : Dispatcher) (e : Event) (latest : Bool)
    → e.terminal ≡ true
    → e.frame ≡ false
    → (post d e latest).accepted ≡ false
    → (d.closed ≡ true) ⊎ (any (λ x. str_eq x.kind e.kind && x.terminal) d.events ≡ true)
unfolding unchanged drop_frame append
post-refusal d e latest t plain =
    post-cases
      (λ p.
        p.accepted ≡ false
        → (d.closed ≡ true) ⊎ (any (λ x. str_eq x.kind e.kind && x.terminal) d.events ≡ true))
      d e (λ why h. ground (arith, why)) (λ f c h. absurd (ground arith))
      (λ room fits c h. absurd (ground arith)) (λ victim rest f r c h. absurd (ground arith))
      (λ f t' fresh c h. absurd (ground arith)) latest λ events l r c h. absurd (ground arith)

final_plain :
    (kind : String)
    → (str_eq kind "completed" || str_eq kind "error") ≡ true
    → ends_with kind "_frame" ≡ false
unfolding ends_with
final_plain kind h = elim (Bool-cases (str_eq kind "completed")) [
  | inl e ↦ by_kind (λ k. ends_with k "_frame" ≡ false) kind "completed" e refl
  | inr e ↦ by_kind (λ k. ends_with k "_frame" ≡ false) kind "error" (ground arith) refl
]

-- In every history of a dispatcher, a post through the sink keeps every queued terminal event, the
-- native tasks among them, in order, and adds its own event behind them if that is terminal and
-- taken in.
pub terminals_kept :
    (capacity : ℕ) (frames : Option ℕ) (w : World) (kind : String) (values : List Object)
    → Reach (initial capacity frames) w
    → str_eq kind "native_task" ≡ false
    → let e = sink_event kind values in
      let p = native_sink w.dispatcher kind values in
      terminals p.dispatcher
      ≡ terminals w.dispatcher ++ (if p.accepted && e.terminal then e ∷ [] else [])
unfolding native_sink
terminals_kept capacity frames w kind values r h =
    post-Keeps w.dispatcher (sink_event kind values) _ (Reach-IsValid capacity frames r)
      (sink-IsSinkEvent kind values h) (final_plain kind)

-- A sink's post of kind completed or error is turned away only if the dispatcher is closed or a
-- terminal event of that kind is already queued.
pub terminal_refused :
    (d : Dispatcher) (kind : String) (values : List Object)
    → (str_eq kind "completed" || str_eq kind "error") ≡ true
    → (native_sink d kind values).accepted ≡ false
    → (d.closed ≡ true) ⊎ (any (λ x. str_eq x.kind kind && x.terminal) d.events ≡ true)
unfolding native_sink
terminal_refused d kind values final h =
    post-refusal d (sink_event kind values) _ final (final_plain kind final) h
