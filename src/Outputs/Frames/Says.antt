-- ===== src/Outputs/Frames/Says.antt =====
-- What an event of an output that is handled tells the handlers.
use tirtc_client_python.Prelude.{
  ℕ, Bool, true, false, Option, none, some, List, [], ◌∷◌, ◌≡◌, ◌≢◌, ◌⊎◌, inl, inr, refl, ap, sym,
  subst, ◌∙◌, arith,
}
use tirtc_client_python.Prelude.Int.{ℤ, pos, negsuc}
use tirtc_client_python.Errors.{TirtcError}
use tirtc_client_python.Errors.Action.{Result, ok, err}
use tirtc_client_python.Errors.Fallible.{bind-ok, ok_injective}
use tirtc_client_python.Storage.Values.Decoding.{All2}
use tirtc_client_python.Outputs.Formats.{
  OutputState, output_states, audio_sample_formats, pixel_formats, audio_codecs,
  video_codecs_by_native, audio_bitstream_formats, video_bitstream_formats, item, value_at,
  read-Numbered, value_at-Keyed,
}
use tirtc_client_python.Outputs.Frames.{
  NativeTimes, OutputEvent, state_event, error_event, audio_frame, video_frame, encoded_audio_frame,
  encoded_video_frame, other_event, timedelta_us, from_epoch_us, truth, datetime_from_us, pts_of,
  source_of, planes_of, OutputTold, decode_audio, decode_video, decode_encoded_audio,
  decode_encoded_video, Handlers, state_kept, handle_output_event,
}
use tirtc_client_python.Outputs.Frames.Numbers.{
  state_number, sample_number, pixel_number, audio_codec_number, video_codec_number,
  audio_stream_number, video_stream_number, HasTimes, SaysAudio, IsPlane, SaysVideo,
  SaysEncodedAudio, SaysEncodedVideo, SaysEvent,
}

timedelta_us-same : (v m : ℤ) → timedelta_us v ≡ ok m → m ≡ v
unfolding timedelta_us
timedelta_us-same (pos n) m h = ground arith
timedelta_us-same (negsuc n) m h = ground arith

from_epoch_us-same : (v m : ℤ) → from_epoch_us v ≡ ok m → m ≡ v
unfolding from_epoch_us
from_epoch_us-same (pos n) m h = ground arith
from_epoch_us-same (negsuc n) m h = ground arith

datetime_from_us-present :
    (v : ℤ) (source : Option ℤ) → datetime_from_us v true ≡ ok source → source ≡ some v
unfolding datetime_from_us
datetime_from_us-present v source h =
    let (span, first, rest) = bind-ok (timedelta_us v) _ source h in
    let (moment, second, built) = bind-ok (from_epoch_us span) _ source rest in
    sym (ok_injective _ _ built)
    ∙ ap some (from_epoch_us-same span moment second ∙ timedelta_us-same v span first)

no_truth : (v : ℤ) → truth v ≡ false → v ≡ pos 0
no_truth (pos n) h = ap pos (ground (arith, h))
no_truth (negsuc n) h = absurd (ground (arith, h))

datetime_from_us-source :
    (present v : ℤ) (source : Option ℤ) (there : Bool)
    → truth present ≡ there
    → datetime_from_us v there ≡ ok source
    → ((present ≡ pos 0) × (source ≡ none)) ⊎ ((present ≢ pos 0) × (source ≡ some v))
unfolding datetime_from_us
datetime_from_us-source present v source false t h =
    inl (no_truth present t, sym (ok_injective _ _ h))
datetime_from_us-source present v source true t h =
    inr ((λ k. ground (arith, t, ap truth k)), datetime_from_us-present v source h)

has_times :
    (t : NativeTimes) (pts : ℤ) (source : Option ℤ)
    → pts_of t ≡ ok pts
    → source_of t ≡ ok source
    → HasTimes t pts source
unfolding pts_of source_of
has_times t pts source h k = (
  timedelta_us-same t.pts_us pts h,
  datetime_from_us-source t.has_source t.source_us source (truth t.has_source) refl k,
)

decode_audio-SaysAudio :
    (b : ℕ) (t : NativeTimes) (f r c n : ℕ) (d : Bool) (told : OutputTold)
    → decode_audio b t f r c n d ≡ ok told
    → SaysAudio b t f r c n d told
unfolding decode_audio
decode_audio-SaysAudio b t f r c n d told h =
    let (pts, h1, rest1) = bind-ok (pts_of t) _ told h in
    let (source, h2, rest2) = bind-ok (source_of t) _ told rest1 in
    let (format, h3, built) = bind-ok (item audio_sample_formats f) _ told rest2 in
    subst (SaysAudio b t f r c n d) (ok_injective _ _ built) (
      refl,
      has_times t pts source h1 h2,
      read-Numbered sample_number audio_sample_formats f format (refl, (refl, tt)) h3,
      refl,
      refl,
      refl,
      refl,
    )

planes_of-All2 : (planes : List (ℕ × ℕ)) → All2 IsPlane planes (planes_of planes)
planes_of-All2 [] = tt
planes_of-All2 ((stride, block) ∷ rest) = ((refl, refl), planes_of-All2 rest)

decode_video-SaysVideo :
    (planes : List (ℕ × ℕ)) (t : NativeTimes) (f w z : ℕ) (d : Bool) (told : OutputTold)
    → decode_video planes t f w z d ≡ ok told
    → SaysVideo planes t f w z d told
unfolding decode_video
decode_video-SaysVideo planes t f w z d told h =
    let (pts, h1, rest1) = bind-ok (pts_of t) _ told h in
    let (source, h2, rest2) = bind-ok (source_of t) _ told rest1 in
    let (format, h3, built) = bind-ok (item pixel_formats f) _ told rest2 in
    subst (SaysVideo planes t f w z d) (ok_injective _ _ built) (
      planes_of-All2 planes,
      has_times t pts source h1 h2,
      read-Numbered pixel_number pixel_formats f format (refl, (refl, (refl, (refl, tt)))) h3,
      refl,
      refl,
      refl,
    )

decode_encoded_audio-SaysEncodedAudio :
    (b g : ℕ) (t : NativeTimes) (c f r n : ℕ) (d : Bool) (told : OutputTold)
    → decode_encoded_audio b g t c f r n d ≡ ok told
    → SaysEncodedAudio b g t c f r n d told
unfolding decode_encoded_audio
decode_encoded_audio-SaysEncodedAudio b g t c f r n d told h =
    let (pts, h1, rest1) = bind-ok (pts_of t) _ told h in
    let (source, h2, rest2) = bind-ok (source_of t) _ told rest1 in
    let (codec, h3, rest3) = bind-ok (item audio_codecs c) _ told rest2 in
    let (format, h4, built) = bind-ok (item audio_bitstream_formats f) _ told rest3 in
    subst (SaysEncodedAudio b g t c f r n d) (ok_injective _ _ built) (
      refl,
      refl,
      has_times t pts source h1 h2,
      read-Numbered audio_codec_number audio_codecs c codec
          (refl, (refl, (refl, (refl, (refl, (refl, tt)))))) h3,
      read-Numbered audio_stream_number audio_bitstream_formats f format
          (refl, (refl, (refl, (refl, (refl, (refl, (refl, tt))))))) h4,
      refl,
      refl,
      refl,
    )

decode_encoded_video-SaysEncodedVideo :
    (b g : ℕ) (t : NativeTimes) (c f w z : ℕ) (k d : Bool) (told : OutputTold)
    → decode_encoded_video b g t c f w z k d ≡ ok told
    → SaysEncodedVideo b g t c f w z k d told
unfolding decode_encoded_video
decode_encoded_video-SaysEncodedVideo b g t c f w z k d told h =
    let (pts, h1, rest1) = bind-ok (pts_of t) _ told h in
    let (source, h2, rest2) = bind-ok (source_of t) _ told rest1 in
    let (codec, h3, rest3) = bind-ok (value_at video_codecs_by_native c) _ told rest2 in
    let (format, h4, built) = bind-ok (item video_bitstream_formats f) _ told rest3 in
    subst (SaysEncodedVideo b g t c f w z k d) (ok_injective _ _ built) (
      refl,
      refl,
      has_times t pts source h1 h2,
      value_at-Keyed video_codec_number video_codecs_by_native c codec
          (refl, (refl, (refl, (refl, tt)))) h3,
      read-Numbered video_stream_number video_bitstream_formats f format
          (refl, (refl, (refl, (refl, tt)))) h4,
      refl,
      refl,
      refl,
      refl,
    )

state_kept-says :
    (error_of : ℤ → TirtcError) (h : Handlers) (n : ℕ) (kept : OutputState) (r : Result OutputState)
    (told : OutputTold)
    → item output_states n ≡ r
    → (state_kept h kept r).0 ≡ ok told
    → SaysEvent error_of h (state_event n) kept told (state_kept h kept r).1
unfolding state_kept
state_kept-says error_of h n kept (ok s) told read e = (
  read-Numbered state_number output_states n s (refl, (refl, (refl, (refl, (refl, (refl, tt))))))
      read,
  sym (ok_injective _ _ e),
)
state_kept-says error_of h n kept (err x) told read e = absurd (ground (arith, e))

-- Where the handling of an event of an output does not raise, a state or a frame that the handler
-- is told of is the one with the numbers of the event: the members of the enumerations have these
-- numbers, the planes are the native ones in their order, the source time is there just where its
-- flag is not zero, and the times are those of the event. A state or an error reaches its handler
-- just where there is one, and only a state changes the kept state.
pub handle_output_event-SaysEvent :
    (error_of : ℤ → TirtcError) (h : Handlers) (event : OutputEvent) (kept : OutputState)
    (told : OutputTold)
    → (handle_output_event error_of h event kept).0 ≡ ok told
    → SaysEvent error_of h event kept told (handle_output_event error_of h event kept).1
unfolding handle_output_event
handle_output_event-SaysEvent error_of h (state_event n) kept told e =
    state_kept-says error_of h n kept (item output_states n) told refl e
handle_output_event-SaysEvent error_of h (error_event code) kept told e =
    (refl, sym (ok_injective _ _ e))
handle_output_event-SaysEvent error_of h (audio_frame b t f r c n d) kept told e =
    (refl, decode_audio-SaysAudio b t f r c n d told e)
handle_output_event-SaysEvent error_of h (video_frame p t f w z d) kept told e =
    (refl, decode_video-SaysVideo p t f w z d told e)
handle_output_event-SaysEvent error_of h (encoded_audio_frame b g t c f r n d) kept told e =
    (refl, decode_encoded_audio-SaysEncodedAudio b g t c f r n d told e)
handle_output_event-SaysEvent error_of h (encoded_video_frame b g t c f w z k d) kept told e =
    (refl, decode_encoded_video-SaysEncodedVideo b g t c f w z k d told e)
handle_output_event-SaysEvent error_of h other_event kept told e = (refl, sym (ok_injective _ _ e))
