-- ===== src/Storage/Values.antt =====
-- src/tirtc/storage/__init__.py: the values that native code hands over as numbers, and the tables
-- of replay speeds. Moments are as in Util.Moments.
pub mod Decoding
mod Tests
use tirtc_client_python.Prelude.{
  ℕ, Bool, not, ◌&&◌, String, Option, none, some, List, [], ◌∷◌, if◌then◌else◌, is_empty,
}
use tirtc_client_python.Prelude.Int.{ℤ, pos, eqb_ℤ}
use tirtc_client_python.Errors.{TirtcError}
use tirtc_client_python.Errors.Action.{Exception, builtin, key_error, value_error, Result, ok, err}
use tirtc_client_python.Errors.Fallible.{◌>>=◌}
use tirtc_client_python.Objects.{Object}
use tirtc_client_python.Util.Moments.{datetime_from_ms}
use tirtc_client_python.RawDump.{Argument, normalize_raw_dump_ids}

-- The key and the value of a table's first entry with a number.
abbrev pub entry : {A : Type 0} → List (ℤ × A) → ℤ → Option A
entry [] value = none
entry ((key, a) ∷ table) value = if eqb_ℤ key value then some a else entry table value

abbrev pub or_raise : {A : Type 0} → Exception → Option A → Result A
or_raise e none = err e
or_raise e (some a) = ok a

abbrev pub each : {A B : Type 0} → (A → Result B) → List A → Result (List B)
each f [] = ok []
each f (a ∷ rest) = f a >>= λ b. each f rest >>= λ bs. ok (b ∷ bs)

pub data RecordingTrackKind : Type 0 where
  video audio : RecordingTrackKind

pub data RecordingGapReason : Type 0 where
  unknown not_found download_failed integrity_failed media_unreadable : RecordingGapReason
  no_key_frame no_recording decryption_failed unsupported_media : RecordingGapReason
  track_unavailable : RecordingGapReason

pub data ExportTermination : Type 0 where
  exhausted interrupted cancelled failed : ExportTermination

abbrev pub track_kinds : List (ℤ × RecordingTrackKind)
track_kinds = (pos 1, video) ∷ (pos 2, audio) ∷ []

abbrev pub gap_reasons : List (ℤ × RecordingGapReason)
gap_reasons =
    (pos 0, unknown)
    ∷ (pos 1, not_found)
    ∷ (pos 2, download_failed)
    ∷ (pos 3, integrity_failed)
    ∷ (pos 4, media_unreadable)
    ∷ (pos 5, no_key_frame)
    ∷ (pos 6, no_recording)
    ∷ (pos 7, decryption_failed)
    ∷ (pos 8, unsupported_media)
    ∷ (pos 9, track_unavailable)
    ∷ []

abbrev pub terminations : List (ℤ × ExportTermination)
terminations = (pos 0, exhausted) ∷ (pos 1, interrupted) ∷ (pos 2, cancelled) ∷ (pos 3, failed) ∷ []

-- The call of an `IntEnum`.
unfoldable pub enum_of : {A : Type 0} → List (ℤ × A) → ℤ → Result A
enum_of table value = or_raise (builtin value_error "not a valid member") (entry table value)

pub record RecordingRange : Type 0 where
  pub start_time : ℤ
  pub end_time : ℤ

pub record RecordingTrack : Type 0 where
  pub kind : RecordingTrackKind
  pub channel_id : ℤ

pub record RecordingGap : Type 0 where
  pub range : RecordingRange
  pub tracks : List RecordingTrack
  pub reasons : List RecordingGapReason

pub record ExportSegment : Type 0 where
  pub source_range : RecordingRange
  pub output_start_ms : ℤ
  pub output_end_ms : ℤ

pub record ExportReport : Type 0 where
  pub requested_range : RecordingRange
  pub covered_duration_ms : ℤ
  pub segments : List ExportSegment
  pub gaps : List RecordingGap
  pub unprocessed_ranges : List RecordingRange
  pub complete : Bool
  pub termination : ExportTermination
  pub cause : Option TirtcError

-- What native code hands over: numbers of milliseconds, of channels and of the enumerations.
pub record NativeGap : Type 0 where
  pub start : ℤ
  pub end : ℤ
  pub tracks : List (ℤ × ℤ)
  pub reasons : List ℤ

pub record NativeSegment : Type 0 where
  pub start : ℤ
  pub end : ℤ
  pub output_start : ℤ
  pub output_end : ℤ

pub record NativeReport : Type 0 where
  pub start : ℤ
  pub end : ℤ
  pub covered : ℤ
  pub complete : Bool
  pub termination : ℤ
  pub cause : ℤ
  pub segments : List NativeSegment
  pub gaps : List NativeGap
  pub unprocessed : List (ℤ × ℤ)

unfoldable pub range_of : ℤ × ℤ → Result RecordingRange
range_of (start, end) = do
  s ← datetime_from_ms start
  e ← datetime_from_ms end
  ok (record { start_time = s; end_time = e })

unfoldable pub track_of : ℤ × ℤ → Result RecordingTrack
unfolding enum_of
track_of (kind, channel) = do
  k ← enum_of track_kinds kind
  ok (record { kind = k; channel_id = channel })

-- `_recording_gap_from_native`
unfoldable pub recording_gap_from_native : NativeGap → Result RecordingGap
unfolding range_of track_of enum_of
recording_gap_from_native v = do
  range ← range_of (v.start, v.end)
  tracks ← each track_of v.tracks
  reasons ← each (enum_of gap_reasons) v.reasons
  ok (record { range = range; tracks = tracks; reasons = reasons })

unfoldable pub segment_of : NativeSegment → Result ExportSegment
unfolding range_of
segment_of v = do
  range ← range_of (v.start, v.end)
  ok (record {
    source_range = range;
    output_start_ms = v.output_start;
    output_end_ms = v.output_end;
  })

module _ (error_of : ℤ → TirtcError) where
  unfoldable pub cause_of : ℤ → Option TirtcError
  cause_of code = if not (eqb_ℤ code (pos 0)) then some (error_of code) else none

  -- `_export_report_from_native`
  unfoldable pub export_report_from_native : NativeReport → Result ExportReport
  unfolding range_of recording_gap_from_native segment_of enum_of cause_of
  export_report_from_native v = do
    range ← range_of (v.start, v.end)
    segments ← each segment_of v.segments
    gaps ← each recording_gap_from_native v.gaps
    unprocessed ← each range_of v.unprocessed
    termination ← enum_of terminations v.termination
    ok (record {
      requested_range = range;
      covered_duration_ms = v.covered;
      segments = segments;
      gaps = gaps;
      unprocessed_ranges = unprocessed;
      complete = v.complete;
      termination = termination;
      cause = cause_of v.cause;
    })

pub data ReplaySpeed : Type 0 where
  x0_125 x0_25 x0_5 x1 x2 x4 x8 : ReplaySpeed

unfoldable pub speed_to_native : ReplaySpeed → ℤ
speed_to_native x0_125 = pos 6
speed_to_native x0_25 = pos 5
speed_to_native x0_5 = pos 4
speed_to_native x1 = pos 0
speed_to_native x2 = pos 1
speed_to_native x4 = pos 2
speed_to_native x8 = pos 3

abbrev pub speeds : List ReplaySpeed
speeds = x0_125 ∷ x0_25 ∷ x0_5 ∷ x1 ∷ x2 ∷ x4 ∷ x8 ∷ []

inverted : List ReplaySpeed → List (ℤ × ReplaySpeed)
unfolding speed_to_native
inverted [] = []
inverted (s ∷ rest) = (speed_to_native s, s) ∷ inverted rest

-- `_REPLAY_SPEED_FROM_NATIVE[value]`
unfoldable pub speed_from_native : ℤ → Result ReplaySpeed
unfolding inverted
speed_from_native value = or_raise (builtin key_error "speed") (entry (inverted speeds) value)

-- RawDumpOptions of a replay.
unfoldable pub channel_options : Argument → Argument → Result (List ℤ × List ℤ)
unfolding normalize_raw_dump_ids
channel_options audio_ids video_ids = do
  audios ← normalize_raw_dump_ids audio_ids "audio_channel_ids" (pos 255)
  videos ← normalize_raw_dump_ids video_ids "video_channel_ids" (pos 255)
  if is_empty audios && is_empty videos
      then err (builtin value_error "at least one audio or video channel must be selected")
      else ok (audios, videos)
