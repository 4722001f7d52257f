-- ===== src/Dispatch.antt =====
-- src/tirtc/_dispatch.py: `_Dispatcher`, the bounded queue of one object's events, and the sinks
-- that native code posts through. Each section under the dispatcher's lock is one function.
mod Queue
mod Cases
pub mod System
mod Shape
mod Bounds
mod Limits
mod Tokens
mod Tasks
mod Terminals
mod Frames
mod Drains
mod Tests
use tirtc_client_python.Prelude.{
  ℕ, suc, ◌+◌, ◌-◌, Bool, true, false, not, ◌&&◌, ◌||◌, String, Option, none, some, List, [], ◌∷◌,
  ◌++◌, str_eq, ltb, leb, if◌then◌else◌, length, is_empty, any, keep_if, get_or,
}
use tirtc_client_python.Prelude.Text.{ends_with}
use tirtc_client_python.Objects.{Object, bool}

-- An entry of the deque: `(kind, values, frame, terminal)`.
pub record Event : Type 0 where
  pub kind : String
  pub values : List Object
  pub frame : Bool
  pub terminal : Bool

pub record Dispatcher : Type 0 where
  pub capacity : ℕ
  pub frame_capacity : ℕ
  pub closed : Bool
  pub dropped_frame : Bool
  pub events : List Event
  pub executing : Bool
  pub frame_count : ℕ
  pub scheduled : Bool

-- `__init__`; the weak reference to the handler is an argument of the calls that read it.
unfoldable pub new : ℕ → Option ℕ → Dispatcher
new capacity frame_capacity = record {
  capacity = capacity;
  frame_capacity = get_or frame_capacity capacity;
  closed = false;
  dropped_frame = false;
  events = [];
  executing = false;
  frame_count = 0;
  scheduled = false;
}

-- What a call under the lock comes to: the new state, the returned value, and whether the caller
-- hands the dispatcher to the executor after the lock.
pub record Posted : Type 0 where
  pub dispatcher : Dispatcher
  pub accepted : Bool
  pub schedule : Bool

-- The backward scan of `latest`: the last queued event of the kind that is no frame is replaced.
unfoldable pub replace_latest : List Event → Event → Option (List Event)
replace_latest [] e = none
replace_latest (x ∷ xs) e = elim (replace_latest xs e) [
  | some ys ↦ some (x ∷ ys)
  | none ↦ if str_eq x.kind e.kind && not x.frame then some (e ∷ xs) else none
]

-- The forward scan for room: the oldest event that is not terminal, and the events without it.
unfoldable pub evict : List Event → Option (Event × List Event)
evict [] = none
evict (x ∷ xs) = elim x.terminal [
  | false ↦ some (x, xs)
  | true ↦ elim (evict xs) [ none ↦ none | some (y, ys) ↦ some (y, x ∷ ys) ]
]

-- `(*values[:-1], True)`
unfoldable pub mark_discontinuity : List Object → List Object
mark_discontinuity [] = bool true ∷ []
mark_discontinuity (x ∷ []) = bool true ∷ []
mark_discontinuity (x ∷ y ∷ values) = x ∷ mark_discontinuity (y ∷ values)

marked : Dispatcher → Event → Event
marked d e =
    if e.frame && d.dropped_frame then record e { values = mark_discontinuity e.values } else e

pub append : Dispatcher → Event → Posted
unfolding marked
append d e = record {
  dispatcher = record d {
    dropped_frame = if e.frame then false else d.dropped_frame;
    events = d.events ++ marked d e ∷ [];
    frame_count = if e.frame then suc d.frame_count else d.frame_count;
    scheduled = true;
  };
  accepted = true;
  schedule = not d.scheduled;
}

pub unchanged : Dispatcher → Bool → Posted
unchanged d accepted = record { dispatcher = d; accepted = accepted; schedule = false }

pub drop_frame : Dispatcher → Posted
drop_frame d = record {
  dispatcher = record d { dropped_frame = true };
  accepted = false;
  schedule = false;
}

-- One event is taken out to make room.
pub without : Dispatcher → Event → List Event → Dispatcher
without d victim rest = record d {
  events = rest;
  frame_count = if victim.frame then d.frame_count - 1 else d.frame_count;
  dropped_frame = if victim.frame then true else d.dropped_frame;
}

pub post_full : Dispatcher → Event → Posted
post_full d e = if e.frame then drop_frame d else elim (evict d.events) [
  | some (victim, rest) ↦ append (without d victim rest) e
  | none ↦
      if not e.terminal || any (λ x. str_eq x.kind e.kind && x.terminal) d.events
      then unchanged d false
      else append d e
]

pub post_new : Dispatcher → Event → Posted
post_new d e =
    if e.frame && leb d.frame_capacity d.frame_count
    then drop_frame d
    else if leb d.capacity (length d.events)
    then post_full d e
    else append d e

-- `post`
pub post : Dispatcher → Event → Bool → Posted
post d e latest =
    if d.closed
    then unchanged d false
    else if latest
    then elim (replace_latest d.events e) [
      | some events ↦ unchanged (record d { events = events }) true
      | none ↦ post_new d e
    ]
    else post_new d e

-- The sink that native callbacks post through.
pub native_sink : Dispatcher → String → List Object → Posted
native_sink d kind values =
    post d
      (record {
        kind = kind;
        values = values;
        frame = ends_with kind "_frame";
        terminal = str_eq kind "completed" || str_eq kind "error";
      })
      (str_eq kind "state" || str_eq kind "time")

abbrev pub native_task : Object → Event
native_task task = record {
  kind = "native_task";
  values = task ∷ [];
  frame = false;
  terminal = true;
}

-- `post_native_task`, looking once: `none` means that the caller goes on waiting for room.
unfoldable pub post_native_task : Dispatcher → Object → Option Posted
post_native_task d task =
    if d.closed
    then some (record { dispatcher = d; accepted = false; schedule = false })
    else if leb d.capacity (length d.events)
    then none
    else some (record {
      dispatcher = record d { events = d.events ++ native_task task ∷ []; scheduled = true };
      accepted = true;
      schedule = not d.scheduled;
    })

-- What a worker of the executor does with one event.
pub data Delivery : Type 0 where
  run_native_task : Option Object → Delivery
  call_handler : String → List Object → Delivery
  handler_gone : Delivery

first : List Object → Option Object
first [] = none
first (x ∷ values) = some x

pub delivery : Bool → Event → Delivery
unfolding first
delivery handler_alive e =
    if str_eq e.kind "native_task"
    then run_native_task (first e.values)
    else if handler_alive
    then call_handler e.kind e.values
    else handler_gone

take_event : Bool → Dispatcher → List Event → Dispatcher × Option Delivery
unfolding delivery
take_event handler_alive d [] = (record d { scheduled = false }, none)
take_event handler_alive d (e ∷ rest) = (
  record d {
    events = rest;
    frame_count = if e.frame then d.frame_count - 1 else d.frame_count;
    executing = true;
  },
  some (delivery handler_alive e),
)

-- `_drain_one` up to the callback, and after it. Whatever the callback raises is reported and
-- dropped. The second is with the decision to hand the dispatcher to the executor again.
unfoldable pub drain_begin : Bool → Dispatcher → Dispatcher × Option Delivery
unfolding take_event
drain_begin handler_alive d = take_event handler_alive d d.events

unfoldable pub drain_end : Dispatcher → Dispatcher × Bool
drain_end d = (
  record d { executing = false; scheduled = if is_empty d.events then false else d.scheduled },
  not (is_empty d.events),
)

-- The conditions that `barrier` and `close` wait for.
unfoldable pub barrier_passes : Dispatcher → Bool
barrier_passes d = is_empty d.events && not d.executing && not d.scheduled

unfoldable pub close_begin : Dispatcher → Dispatcher
close_begin d = record d { closed = true }

unfoldable pub close_passes : Dispatcher → Bool
close_passes d = not d.executing && is_empty d.events

unfoldable pub discard : Dispatcher → Dispatcher
discard d =
    let rest = keep_if (λ e. str_eq e.kind "native_task") d.events in
    record d {
      closed = true;
      events = rest;
      frame_count = 0;
      scheduled = if is_empty rest && not d.executing then false else d.scheduled;
    }
