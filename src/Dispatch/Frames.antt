-- ===== src/Dispatch/Frames.antt =====
-- Every gap in the frames is recorded, and announced by the next frame.
use mathlib.Core.List.{append-nil}
use tirtc_client_python.Prelude.{
  ◌≡◌, refl, ap, sym, ◌∙◌, Bool, true, false, ◌⊎◌, inl, inr, Option, none, some, List, [], ◌∷◌,
  ◌++◌, arith, keep_if, keep_if-append, Bool-cases,
}
use tirtc_client_python.Objects.{Object, bool}
use tirtc_client_python.Dispatch.{
  Event, Dispatcher, Posted, append, unchanged, drop_frame, without, marked, post,
  mark_discontinuity,
}
use tirtc_client_python.Dispatch.Cases.{post-cases}
use tirtc_client_python.Dispatch.Queue.{is_frame, Replaced, Evicted}

abbrev pub frames : Dispatcher → List Event
frames d = keep_if is_frame d.events

abbrev pub last? : List Object → Option Object
last? [] = none
last? (x ∷ []) = some x
last? (x ∷ y ∷ values) = last? (y ∷ values)

-- What a post may do to the frames of the queue. `delivered` says how the new frame is marked.
pub data FrameStep (d : Dispatcher) (e : Event) (p : Posted) : Type 0 where
  delivered :
      (values : List Object)
      → e.frame ≡ true
      → p.accepted ≡ true
      → frames p.dispatcher ≡ frames d ++ record e { values = values } ∷ []
      → (d.dropped_frame ≡ false) × (values ≡ e.values)
        ⊎ (d.dropped_frame ≡ true) × (last? values ≡ some (bool true))
      → p.dispatcher.dropped_frame ≡ false
      → FrameStep d e p
  refused :
      e.frame ≡ true
      → p.accepted ≡ false
      → frames p.dispatcher ≡ frames d
      → p.dispatcher.dropped_frame ≡ true
      → FrameStep d e p
  pushed_out :
      (before after : List Event) (victim : Event)
      → e.frame ≡ false
      → frames d ≡ before ++ victim ∷ after
      → frames p.dispatcher ≡ before ++ after
      → p.dispatcher.dropped_frame ≡ true
      → FrameStep d e p
  untouched :
      e.frame ≡ false
      → frames p.dispatcher ≡ frames d
      → p.dispatcher.dropped_frame ≡ d.dropped_frame
      → FrameStep d e p

last?-mark : (values : List Object) → last? (mark_discontinuity values) ≡ some (bool true)
unfolding mark_discontinuity
last?-mark [] = refl
last?-mark (x ∷ []) = refl
last?-mark (x ∷ y ∷ []) = refl
last?-mark (x ∷ y ∷ z ∷ values) = last?-mark (y ∷ z ∷ values)

keep_if-skip :
    (xs ys : List Event) (x : Event)
    → x.frame ≡ false
    → keep_if is_frame (xs ++ x ∷ ys) ≡ keep_if is_frame (xs ++ ys)
keep_if-skip [] ys x h = rw h
keep_if-skip (y ∷ xs) ys x h = rw (keep_if-skip xs ys x h)

-- A frame that is taken in: marked if one was dropped before.
append_frame : (d : Dispatcher) (e : Event) → e.frame ≡ true → FrameStep d e (append d e)
unfolding append
append_frame d e f =
    delivered (marked d e).values f refl
      (keep_if-append is_frame d.events (marked d e ∷ []) ∙ ground arith)
      (elim (Bool-cases d.dropped_frame) [
        | inl lost ↦ inr (lost, ground (arith, last?-mark e.values))
        | inr whole ↦ inl (whole, ground arith)
      ])
      (ground arith)

append_plain :
    (d : Dispatcher) (e : Event)
    → e.frame ≡ false
    → (frames (append d e).dispatcher ≡ frames d)
      × ((append d e).dispatcher.dropped_frame ≡ d.dropped_frame)
unfolding append
append_plain d e f = (
  keep_if-append is_frame d.events (marked d e ∷ []) ∙ ground (arith, append-nil (frames d)),
  ground arith,
)

-- The frames of the queue before and after an eviction, by what the victim was.
module _ (d : Dispatcher) (e v : Event) (rest : List Event) (f : e.frame ≡ false)
    (r : Evicted d.events v rest) where
  rest_frames : keep_if is_frame rest ≡ keep_if is_frame r.before ++ keep_if is_frame r.after
  rest_frames = ap (keep_if is_frame) r.becomes ∙ keep_if-append is_frame r.before r.after

  had_frames : frames d ≡ keep_if is_frame r.before ++ keep_if is_frame (v ∷ r.after)
  had_frames = ap (keep_if is_frame) r.was ∙ keep_if-append is_frame r.before (v ∷ r.after)

  evicted_frame : FrameStep d e (append (without d v rest) e)
  unfolding without
  evicted_frame =
      let (same, flag) = append_plain (without d v rest) e f in
      elim (Bool-cases v.frame) [
        | inl lost ↦
            pushed_out (keep_if is_frame r.before) (keep_if is_frame r.after) v f
              (had_frames ∙ ground arith) (same ∙ rest_frames) (flag ∙ ground arith)
        | inr kept ↦
            untouched f (same ∙ rest_frames ∙ sym (had_frames ∙ ground arith)) (flag ∙ ground arith)
      ]

replaced_frame :
    (d : Dispatcher) (e : Event) (events : List Event)
    → e.frame ≡ false
    → Replaced d.events e events
    → FrameStep d e (unchanged (record d { events = events }) true)
unfolding unchanged
replaced_frame d e events f r =
    untouched f
      (ap (keep_if is_frame) r.becomes
        ∙ keep_if-skip r.before r.after e f
        ∙ sym (ap (keep_if is_frame) r.was ∙ keep_if-skip r.before r.after r.old r.no_frame))
      refl

-- On a dispatcher that is open, with `latest` for no frame: a post takes its frame in at the end of
-- the queue, with the last value set to True just if frames were dropped since the last one taken
-- in, and clears the mark; or it refuses the frame and sets the mark; or, for an event that is no
-- frame, it pushes one queued frame out and sets the mark, or leaves the frames and the mark alone.
pub post-FrameStep :
    (d : Dispatcher) (e : Event) (latest : Bool)
    → d.closed ≡ false
    → (latest ≡ true → e.frame ≡ false)
    → FrameStep d e (post d e latest)
unfolding unchanged drop_frame
post-FrameStep d e latest open_queue plain =
    post-cases (FrameStep d e) d e (λ why. untouched (ground (arith, why)) refl refl)
      (λ f c. refused f refl refl refl) (λ room fits c. appended)
      (λ v rest f r c. evicted_frame d e v rest f r) (λ f t fresh c. appended) latest
      λ events l r c. replaced_frame d e events (plain l) r
  where
    appended : FrameStep d e (append d e)
    appended = elim (Bool-cases e.frame) [
      | inl f ↦ append_frame d e f
      | inr f ↦ let (same, flag) = append_plain d e f in untouched f same flag
    ]
