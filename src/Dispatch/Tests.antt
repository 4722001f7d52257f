-- ===== src/Dispatch/Tests.antt =====
-- Runs of a small dispatcher, and the theorems at them.
use tirtc_client_python.Prelude.{
  ◌+◌, ◌≤◌, ◌≡◌, refl, true, false, ◌&&◌, none, some, List, [], ◌∷◌, ◌++◌, map, if◌then◌else◌,
  length, count_if, min,
}
use tirtc_client_python.Prelude.Text.{ends_with}
use tirtc_client_python.Objects.{Object, bool, other}
use tirtc_client_python.Dispatch.{
  Dispatcher, Posted, new, append, unchanged, drop_frame, without, marked, post, post_new,
  post_full, replace_latest, evict, mark_discontinuity, native_sink, native_task, post_native_task,
  delivery, discard, barrier_passes, close_passes,
}
use tirtc_client_python.Dispatch.Queue.{is_frame, is_task, is_final}
use tirtc_client_python.Dispatch.Bounds.{sink_event}
use tirtc_client_python.Dispatch.Limits.{queue_bounded}
use tirtc_client_python.Dispatch.Tokens.{serial_callbacks, no_lost_event}
use tirtc_client_python.Dispatch.Tasks.{queued, native_tasks_kept}
use tirtc_client_python.Dispatch.Terminals.{terminals, terminals_kept}
use tirtc_client_python.Dispatch.Drains.{passes, queue_drains}
use tirtc_client_python.Dispatch.System.{
  World, initial, posted, Reach, here, next, sinks, posts_task, schedules, discards,
}

abbrev frame_values : List Object
frame_values = other 7 ∷ bool false ∷ []

-- One place for a frame: the second frame is dropped.
abbrev w1 : World
w1 = posted (initial 2 (some 1)) (native_sink (new 2 (some 1)) "video_frame" frame_values) []

abbrev w2 : World
w2 = posted w1 (native_sink w1.dispatcher "video_frame" frame_values) []

abbrev full_dispatcher : Dispatcher
full_dispatcher = record w1.dispatcher {
  events = native_task (other 1) ∷ native_task (other 2) ∷ [];
}

-- The evicted frame leaves the mark, and the next frame is marked.
evicts_and_marks :
    let d = record (new 1 none) {
      events = sink_event "video_frame" frame_values ∷ [];
      frame_count = 1;
    } in
    let p = native_sink d "error" [] in
    (p.accepted ≡ true) × (p.dispatcher.dropped_frame ≡ true) × (p.dispatcher.frame_count ≡ 0)
unfolding new native_sink post post_new post_full evict replace_latest append unchanged drop_frame
    without marked ends_with
evicts_and_marks = (refl, refl, refl)

marks_next :
    (native_sink
      (record (new 2 none) { dropped_frame = true })
      "audio_frame"
      frame_values).dispatcher.events
    ≡ record (sink_event "audio_frame" frame_values) { values = other 7 ∷ bool true ∷ [] } ∷ []
unfolding new native_sink post post_new append unchanged drop_frame marked mark_discontinuity
    ends_with
marks_next = refl

replaces_latest :
    (native_sink
      (native_sink (new 2 none) "state" (other 1 ∷ [])).dispatcher
      "state"
      (other 2 ∷ [])).dispatcher.events
    ≡ sink_event "state" (other 2 ∷ []) ∷ []
unfolding new native_sink post post_new replace_latest append unchanged drop_frame marked ends_with
replaces_latest = refl

Reach-w1 : Reach (initial 2 (some 1)) w1
Reach-w1 = next here (sinks "video_frame" frame_values refl)

Reach-w2 : Reach (initial 2 (some 1)) w2
Reach-w2 = next Reach-w1 (sinks "video_frame" frame_values refl)

queue_bounded_example :
    let d = w2.dispatcher in
    (length d.events
      ≤ 2
        + min 1 (count_if (is_final "completed") d.events)
        + min 1 (count_if (is_final "error") d.events))
    × (count_if is_frame d.events ≤ 1)
    × (count_if is_task d.events ≤ 2)
    × (d.frame_count ≡ count_if is_frame d.events)
queue_bounded_example = queue_bounded 2 (some 1) w2 Reach-w2

serial_callbacks_example :
    (w2.running ≤ 1)
    × (w2.owed + w2.ready + w2.running ≤ 1)
    × (w2.running ≡ (if w2.dispatcher.executing then 1 else 0))
serial_callbacks_example = serial_callbacks 2 (some 1) w2 Reach-w2

no_lost_event_example : w1.owed + w1.ready + w1.running ≡ 1
unfolding new native_sink post post_new replace_latest append unchanged drop_frame marked ends_with
no_lost_event_example = no_lost_event 2 (some 1) w1 Reach-w1 (λ e. cc)

-- The object is discarded while its dispatcher waits in the executor's queue.
abbrev w3 : World
w3 = record w1 { owed = 0; ready = 1 }

abbrev w4 : World
w4 = record w3 { dispatcher = discard w3.dispatcher }

Reach-w3 : Reach (initial 2 (some 1)) w3
unfolding new native_sink post post_new replace_latest append unchanged drop_frame marked ends_with
Reach-w3 = next Reach-w1 (schedules 0 refl)

Reach-w4 : Reach (initial 2 (some 1)) w4
Reach-w4 = next Reach-w3 discards

abbrev task_posted : Posted
task_posted = record {
  dispatcher = record (new 2 none) { events = native_task (other 1) ∷ []; scheduled = true };
  accepted = true;
  schedule = true;
}

abbrev w5 : World
w5 = posted (initial 2 none) task_posted (other 1 ∷ [])

Reach-w5 : Reach (initial 2 none) w5
unfolding new post_native_task
Reach-w5 = next here (posts_task (other 1) task_posted refl)

native_tasks_kept_example : w5.accepted ≡ w5.started ++ queued w5.dispatcher.events
native_tasks_kept_example = native_tasks_kept 2 none w5 Reach-w5

terminals_kept_example :
    let e = sink_event "completed" [] in
    let p = native_sink w5.dispatcher "completed" [] in
    terminals p.dispatcher
    ≡ terminals w5.dispatcher ++ (if p.accepted && e.terminal then e ∷ [] else [])
terminals_kept_example = terminals_kept 2 none w5 "completed" [] Reach-w5 refl

abbrev errors_full : Dispatcher
errors_full = record (new 1 none) { events = sink_event "error" [] ∷ [] }

queue_drains_example :
    let (delivered, d) = passes (length w5.dispatcher.events) false w5.dispatcher in
    (delivered ≡ map (delivery false) w5.dispatcher.events)
    × (barrier_passes d ≡ true)
    × (close_passes d ≡ true)
queue_drains_example = queue_drains 2 none w5 false Reach-w5 refl
