-- ===== src/Outputs/Frames.antt =====
-- src/tirtc/_core.py: the events of `_OutputBase`, with the decoding of the frames that they carry,
-- into the value classes of src/tirtc/_values.py. A block of memory is known by a number. Where
-- native code hands over an unsigned number it is natural here, and an int that stands for a truth
-- value is an integer. A span of time or a moment is a number of microseconds.
mod Numbers
mod Says
mod Tests
use tirtc_client_python.Prelude.{
  ℕ, Bool, true, false, not, ◌||◌, Option, none, some, List, [], ◌∷◌, if◌then◌else◌,
}
use tirtc_client_python.Prelude.Int.{ℤ, pos, negsuc, eqb_ℤ, ltb_ℤ}
use tirtc_client_python.Errors.{TirtcError}
use tirtc_client_python.Errors.Action.{Exception, foreign, Result, ok, err}
use tirtc_client_python.Errors.Fallible.{◌>>=◌}
use tirtc_client_python.Outputs.Formats.{
  OutputState, AudioSampleFormat, PixelFormat, AudioCodec, VideoCodec, AudioBitstreamFormat,
  VideoBitstreamFormat, output_states, audio_sample_formats, pixel_formats, audio_codecs,
  video_codecs_by_native, audio_bitstream_formats, video_bitstream_formats, item, value_at,
}

pub record AudioFrame : Type 0 where
  pub data_ : ℕ
  pub pts : ℤ
  pub source_time : Option ℤ
  pub sample_format : AudioSampleFormat
  pub sample_rate_hz : ℕ
  pub channels : ℕ
  pub samples_per_channel : ℕ
  pub discontinuity : Bool

pub record VideoPlane : Type 0 where
  pub stride : ℕ
  pub data_ : ℕ

pub record VideoFrame : Type 0 where
  pub pts : ℤ
  pub source_time : Option ℤ
  pub pixel_format : PixelFormat
  pub width : ℕ
  pub height : ℕ
  pub planes : List VideoPlane
  pub discontinuity : Bool

pub record EncodedAudioFrame : Type 0 where
  pub data_ : ℕ
  pub codec_config : ℕ
  pub pts : ℤ
  pub source_time : Option ℤ
  pub codec : AudioCodec
  pub bitstream_format : AudioBitstreamFormat
  pub sample_rate_hz : ℕ
  pub channels : ℕ
  pub discontinuity : Bool

pub record EncodedVideoFrame : Type 0 where
  pub data_ : ℕ
  pub codec_config : ℕ
  pub pts : ℤ
  pub source_time : Option ℤ
  pub codec : VideoCodec
  pub bitstream_format : VideoBitstreamFormat
  pub width : ℕ
  pub height : ℕ
  pub key_frame : Bool
  pub discontinuity : Bool

-- The times that every frame has.
pub record NativeTimes : Type 0 where
  pub pts_us : ℤ
  pub source_us : ℤ
  pub has_source : ℤ

-- The arguments of an event.
pub data OutputEvent : Type 0 where
  state_event : ℕ → OutputEvent
  error_event : ℤ → OutputEvent
  audio_frame : (data_ : ℕ) → NativeTimes → (format rate channels samples : ℕ) → Bool → OutputEvent
  video_frame :
      (planes : List (ℕ × ℕ)) → NativeTimes → (format width height : ℕ) → Bool → OutputEvent
  encoded_audio_frame :
      (data_ config : ℕ) → NativeTimes → (codec format rate channels : ℕ) → Bool → OutputEvent
  encoded_video_frame :
      (data_ config : ℕ)
      → NativeTimes
      → (codec format width height : ℕ) → (key discontinuity : Bool) → OutputEvent
  other_event : OutputEvent

abbrev pub overflow_error : Exception
overflow_error = foreign "OverflowError"

-- `timedelta(microseconds=...)`, which has at most 999999999 days either way.
unfoldable pub timedelta_us : ℤ → Result ℤ
timedelta_us us =
    if ltb_ℤ us (negsuc 86_399_999_913_599_999_999) || ltb_ℤ (pos 86_399_999_999_999_999_999) us
    then err overflow_error
    else ok us

-- The sum of the epoch and a span, in the years from 1 to 9999.
unfoldable pub from_epoch_us : ℤ → Result ℤ
from_epoch_us us =
    if ltb_ℤ us (negsuc 62_135_596_799_999_999) || ltb_ℤ (pos 253_402_300_799_999_999) us
    then err overflow_error
    else ok us

abbrev pub truth : ℤ → Bool
truth v = not (eqb_ℤ v (pos 0))

-- `_datetime_from_us`
unfoldable pub datetime_from_us : ℤ → (present : Bool) → Result (Option ℤ)
unfolding timedelta_us from_epoch_us
datetime_from_us value false = ok none
datetime_from_us value true = do
  span ← timedelta_us value
  moment ← from_epoch_us span
  ok (some moment)

unfoldable pub pts_of : NativeTimes → Result ℤ
unfolding timedelta_us
pts_of t = timedelta_us t.pts_us

unfoldable pub source_of : NativeTimes → Result (Option ℤ)
unfolding datetime_from_us
source_of t = datetime_from_us t.source_us (truth t.has_source)

abbrev pub planes_of : List (ℕ × ℕ) → List VideoPlane
planes_of [] = []
planes_of ((stride, block) ∷ rest) = record { stride = stride; data_ = block } ∷ planes_of rest

-- What the handlers are told.
pub data OutputTold : Type 0 where
  nobody : OutputTold
  state_told : OutputState → OutputTold
  error_told : TirtcError → OutputTold
  audio_told : AudioFrame → OutputTold
  video_told : VideoFrame → OutputTold
  encoded_audio_told : EncodedAudioFrame → OutputTold
  encoded_video_told : EncodedVideoFrame → OutputTold

unfoldable pub decode_audio : ℕ → NativeTimes → ℕ → ℕ → ℕ → ℕ → Bool → Result OutputTold
unfolding pts_of source_of item
decode_audio block times format rate channels samples discontinuity = do
  pts ← pts_of times
  source ← source_of times
  f ← item audio_sample_formats format
  ok (
      audio_told (record {
        data_ = block;
        pts = pts;
        source_time = source;
        sample_format = f;
        sample_rate_hz = rate;
        channels = channels;
        samples_per_channel = samples;
        discontinuity = discontinuity;
      }))

unfoldable pub decode_video : List (ℕ × ℕ) → NativeTimes → ℕ → ℕ → ℕ → Bool → Result OutputTold
unfolding pts_of source_of item
decode_video planes times format width height discontinuity = do
  pts ← pts_of times
  source ← source_of times
  f ← item pixel_formats format
  ok (
      video_told (record {
        pts = pts;
        source_time = source;
        pixel_format = f;
        width = width;
        height = height;
        planes = planes_of planes;
        discontinuity = discontinuity;
      }))

unfoldable pub decode_encoded_audio : ℕ → ℕ → NativeTimes → ℕ → ℕ → ℕ → ℕ → Bool → Result OutputTold
unfolding pts_of source_of item
decode_encoded_audio block config times codec format rate channels discontinuity = do
  pts ← pts_of times
  source ← source_of times
  c ← item audio_codecs codec
  f ← item audio_bitstream_formats format
  ok (
      encoded_audio_told (record {
        data_ = block;
        codec_config = config;
        pts = pts;
        source_time = source;
        codec = c;
        bitstream_format = f;
        sample_rate_hz = rate;
        channels = channels;
        discontinuity = discontinuity;
      }))

unfoldable pub decode_encoded_video :
    ℕ → ℕ → NativeTimes → ℕ → ℕ → ℕ → ℕ → Bool → Bool → Result OutputTold
unfolding pts_of source_of item value_at
decode_encoded_video block config times codec format width height key discontinuity = do
  pts ← pts_of times
  source ← source_of times
  c ← value_at video_codecs_by_native codec
  f ← item video_bitstream_formats format
  ok (
      encoded_video_told (record {
        data_ = block;
        codec_config = config;
        pts = pts;
        source_time = source;
        codec = c;
        bitstream_format = f;
        width = width;
        height = height;
        key_frame = key;
        discontinuity = discontinuity;
      }))

-- Which of the two handlers that may be None were given.
pub record Handlers : Type 0 where
  pub on_state_changed : Bool
  pub on_error : Bool

state_kept : Handlers → OutputState → Result OutputState → Result OutputTold × OutputState
state_kept h kept (ok s) = (ok (if h.on_state_changed then state_told s else nobody), s)
state_kept h kept (err e) = (err e, kept)

module _ (error_of : ℤ → TirtcError) where
  -- `_handle_event`, with what a handler is told and the kept state after it.
  unfoldable pub handle_output_event :
      Handlers → OutputEvent → OutputState → Result OutputTold × OutputState
  unfolding item state_kept decode_audio decode_video decode_encoded_audio decode_encoded_video
  handle_output_event h (state_event s) kept = state_kept h kept (item output_states s)
  handle_output_event h (error_event code) kept =
      (ok (if h.on_error then error_told (error_of code) else nobody), kept)
  handle_output_event h (audio_frame b t f r c n d) kept = (decode_audio b t f r c n d, kept)
  handle_output_event h (video_frame p t f w z d) kept = (decode_video p t f w z d, kept)
  handle_output_event h (encoded_audio_frame b g t c f r n d) kept =
      (decode_encoded_audio b g t c f r n d, kept)
  handle_output_event h (encoded_video_frame b g t c f w z k d) kept =
      (decode_encoded_video b g t c f w z k d, kept)
  handle_output_event h other_event kept = (ok nobody, kept)
