-- ===== src/Outputs/Frames/Tests.antt =====
-- A video frame of two planes, decoded.
use tirtc_client_python.Prelude.{◌≡◌, refl, true, false, some, [], ◌∷◌}
use tirtc_client_python.Prelude.Int.{pos}
use tirtc_client_python.Errors.Action.{ok}
use tirtc_client_python.Calls.Sample.{named}
use tirtc_client_python.Outputs.Formats.{
  paused, delivering, nv12, h265, h265_annex_b, item, value_at,
}
use tirtc_client_python.Outputs.Frames.{
  NativeTimes, Handlers, OutputEvent, video_frame, encoded_video_frame, state_event, OutputTold,
  video_told, encoded_video_told, state_told, handle_output_event, decode_video,
  decode_encoded_video, pts_of, source_of, timedelta_us, datetime_from_us, from_epoch_us,
  state_kept,
}
use tirtc_client_python.Outputs.Frames.Numbers.{SaysEvent}
use tirtc_client_python.Outputs.Frames.Says.{handle_output_event-SaysEvent}

abbrev times : NativeTimes
times = record { pts_us = pos 40_000; source_us = pos 7_000_000; has_source = pos 1 }

abbrev handlers : Handlers
handlers = record { on_state_changed = true; on_error = false }

abbrev picture : OutputEvent
picture = video_frame ((640, 3) ∷ (640, 4) ∷ []) times 2 640 480 false

abbrev decoded : OutputTold
decoded = video_told (record {
  pts = pos 40_000;
  source_time = some (pos 7_000_000);
  pixel_format = nv12;
  width = 640;
  height = 480;
  planes = record { stride = 640; data_ = 3 } ∷ record { stride = 640; data_ = 4 } ∷ [];
  discontinuity = false;
})

two_planes : handle_output_event named handlers picture delivering ≡ (ok decoded, delivering)
unfolding handle_output_event decode_video pts_of source_of timedelta_us datetime_from_us
    from_epoch_us item
two_planes = refl

paused_told :
    handle_output_event named handlers (state_event 4) delivering ≡ (ok (state_told paused), paused)
unfolding handle_output_event state_kept item
paused_told = refl

key_frame_read :
    handle_output_event named handlers
      (encoded_video_frame 1 2 times 66 2 640 480 true false)
      delivering
    ≡ (
      ok (
          encoded_video_told (record {
            data_ = 1;
            codec_config = 2;
            pts = pos 40_000;
            source_time = some (pos 7_000_000);
            codec = h265;
            bitstream_format = h265_annex_b;
            width = 640;
            height = 480;
            key_frame = true;
            discontinuity = false;
          })),
      delivering,
    )
unfolding handle_output_event decode_encoded_video pts_of source_of timedelta_us datetime_from_us
    from_epoch_us item value_at
key_frame_read = refl

handle_output_event-SaysEvent_example :
    SaysEvent named handlers picture delivering decoded
      (handle_output_event named handlers picture delivering).1
unfolding handle_output_event decode_video pts_of source_of timedelta_us datetime_from_us
    from_epoch_us item
handle_output_event-SaysEvent_example =
    handle_output_event-SaysEvent named handlers picture delivering decoded refl
