-- ===== src/Outputs/Frames/Numbers.antt =====
-- The numbers of the native enumerations, and what an event of an output says by them.
use tirtc_client_python.Prelude.{ℕ, Bool, Option, none, some, List, if◌then◌else◌, ◌≡◌, ◌≢◌, ◌⊎◌}
use tirtc_client_python.Prelude.Int.{ℤ, pos}
use tirtc_client_python.Errors.{TirtcError}
use tirtc_client_python.Storage.Values.Decoding.{All2}
use tirtc_client_python.Outputs.Formats.{
  OutputState, idle, buffering, delivering, failed, paused, completed, AudioSampleFormat,
  no_samples, int16_le_interleaved, PixelFormat, no_pixels, i420, nv12, rgba8888, AudioCodec,
  no_audio, g711a, aac, pcm, opus, amr, VideoCodec, no_video, h264, h265, mjpeg,
  AudioBitstreamFormat, no_audio_stream, g711a_packet, aac_adts, aac_raw_access_unit,
  pcm_int16_le_interleaved, opus_packet, amr_nb_frame, VideoBitstreamFormat, no_video_stream,
  h264_annex_b, h265_annex_b, mjpeg_jfif,
}
use tirtc_client_python.Outputs.Frames.{
  VideoPlane, NativeTimes, OutputEvent, state_event, error_event, audio_frame, video_frame,
  encoded_audio_frame, encoded_video_frame, other_event, OutputTold, nobody, state_told, error_told,
  audio_told, video_told, encoded_audio_told, encoded_video_told, Handlers,
}

abbrev pub state_number : OutputState → ℕ
state_number idle = 0
state_number buffering = 1
state_number delivering = 2
state_number failed = 3
state_number paused = 4
state_number completed = 5

abbrev pub sample_number : AudioSampleFormat → ℕ
sample_number no_samples = 0
sample_number int16_le_interleaved = 1

abbrev pub pixel_number : PixelFormat → ℕ
pixel_number no_pixels = 0
pixel_number i420 = 1
pixel_number nv12 = 2
pixel_number rgba8888 = 3

abbrev pub audio_codec_number : AudioCodec → ℕ
audio_codec_number no_audio = 0
audio_codec_number g711a = 1
audio_codec_number aac = 2
audio_codec_number pcm = 3
audio_codec_number opus = 4
audio_codec_number amr = 5

abbrev pub video_codec_number : VideoCodec → ℕ
video_codec_number no_video = 0
video_codec_number h264 = 65
video_codec_number h265 = 66
video_codec_number mjpeg = 67

abbrev pub audio_stream_number : AudioBitstreamFormat → ℕ
audio_stream_number no_audio_stream = 0
audio_stream_number g711a_packet = 1
audio_stream_number aac_adts = 2
audio_stream_number aac_raw_access_unit = 3
audio_stream_number pcm_int16_le_interleaved = 4
audio_stream_number opus_packet = 5
audio_stream_number amr_nb_frame = 6

abbrev pub video_stream_number : VideoBitstreamFormat → ℕ
video_stream_number no_video_stream = 0
video_stream_number h264_annex_b = 1
video_stream_number h265_annex_b = 2
video_stream_number mjpeg_jfif = 3

abbrev pub HasTimes : NativeTimes → ℤ → Option ℤ → Type 0
HasTimes t pts source =
    (pts ≡ t.pts_us)
    × (((t.has_source ≡ pos 0) × (source ≡ none))
        ⊎ ((t.has_source ≢ pos 0) × (source ≡ some t.source_us)))

abbrev pub SaysAudio : ℕ → NativeTimes → ℕ → ℕ → ℕ → ℕ → Bool → OutputTold → Type 0
SaysAudio b t f r c n d (audio_told x) =
    (x.data_ ≡ b)
    × HasTimes t x.pts x.source_time
    × (sample_number x.sample_format ≡ f)
    × (x.sample_rate_hz ≡ r)
    × (x.channels ≡ c)
    × (x.samples_per_channel ≡ n)
    × (x.discontinuity ≡ d)
SaysAudio b t f r c n d _ = ⊥

abbrev pub IsPlane : ℕ × ℕ → VideoPlane → Type 0
IsPlane (stride, block) p = (p.stride ≡ stride) × (p.data_ ≡ block)

abbrev pub SaysVideo : List (ℕ × ℕ) → NativeTimes → ℕ → ℕ → ℕ → Bool → OutputTold → Type 0
SaysVideo planes t f w z d (video_told x) =
    All2 IsPlane planes x.planes
    × HasTimes t x.pts x.source_time
    × (pixel_number x.pixel_format ≡ f)
    × (x.width ≡ w)
    × (x.height ≡ z)
    × (x.discontinuity ≡ d)
SaysVideo planes t f w z d _ = ⊥

abbrev pub SaysEncodedAudio : ℕ → ℕ → NativeTimes → ℕ → ℕ → ℕ → ℕ → Bool → OutputTold → Type 0
SaysEncodedAudio b g t c f r n d (encoded_audio_told x) =
    (x.data_ ≡ b)
    × (x.codec_config ≡ g)
    × HasTimes t x.pts x.source_time
    × (audio_codec_number x.codec ≡ c)
    × (audio_stream_number x.bitstream_format ≡ f)
    × (x.sample_rate_hz ≡ r)
    × (x.channels ≡ n)
    × (x.discontinuity ≡ d)
SaysEncodedAudio b g t c f r n d _ = ⊥

abbrev pub SaysEncodedVideo :
    ℕ → ℕ → NativeTimes → ℕ → ℕ → ℕ → ℕ → Bool → Bool → OutputTold → Type 0
SaysEncodedVideo b g t c f w z k d (encoded_video_told x) =
    (x.data_ ≡ b)
    × (x.codec_config ≡ g)
    × HasTimes t x.pts x.source_time
    × (video_codec_number x.codec ≡ c)
    × (video_stream_number x.bitstream_format ≡ f)
    × (x.width ≡ w)
    × (x.height ≡ z)
    × (x.key_frame ≡ k)
    × (x.discontinuity ≡ d)
SaysEncodedVideo b g t c f w z k d _ = ⊥

-- What a handled event tells the handlers, and the kept state after it.
abbrev pub SaysEvent :
    (error_of : ℤ → TirtcError)
    → Handlers
    → OutputEvent
    → OutputState
    → OutputTold
    → OutputState
    → Type 0
SaysEvent error_of h (state_event n) kept told after =
    (state_number after ≡ n) × (told ≡ (if h.on_state_changed then state_told after else nobody))
SaysEvent error_of h (error_event code) kept told after =
    (after ≡ kept) × (told ≡ (if h.on_error then error_told (error_of code) else nobody))
SaysEvent error_of h (audio_frame b t f r c n d) kept told after =
    (after ≡ kept) × SaysAudio b t f r c n d told
SaysEvent error_of h (video_frame p t f w z d) kept told after =
    (after ≡ kept) × SaysVideo p t f w z d told
SaysEvent error_of h (encoded_audio_frame b g t c f r n d) kept told after =
    (after ≡ kept) × SaysEncodedAudio b g t c f r n d told
SaysEvent error_of h (encoded_video_frame b g t c f w z k d) kept told after =
    (after ≡ kept) × SaysEncodedVideo b g t c f w z k d told
SaysEvent error_of h other_event kept told after = (after ≡ kept) × (told ≡ nobody)
