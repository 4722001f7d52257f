-- ===== src/Outputs/Formats.antt =====
-- src/tirtc/_values.py: the enumerations of outputs and frames, and the tables by which the unsigned
-- numbers of native code are read.
use tirtc_client_python.Prelude.{
  ℕ, zero, suc, List, [], ◌∷◌, ◌≡◌, ◌+◌, ap, arith, ◌==◌, if◌then◌else◌, Bool-cases, inl, inr,
}
use tirtc_client_python.Errors.Action.{builtin, foreign, key_error, Result, ok, err}
use tirtc_client_python.Errors.Fallible.{ok_injective}

pub data OutputState : Type 0 where
  idle buffering delivering failed paused completed : OutputState

pub data AudioSampleFormat : Type 0 where
  no_samples int16_le_interleaved : AudioSampleFormat

pub data PixelFormat : Type 0 where
  no_pixels i420 nv12 rgba8888 : PixelFormat

pub data AudioCodec : Type 0 where
  no_audio g711a aac pcm opus amr : AudioCodec

pub data VideoCodec : Type 0 where
  no_video h264 h265 mjpeg : VideoCodec

pub data AudioBitstreamFormat : Type 0 where
  no_audio_stream g711a_packet aac_adts aac_raw_access_unit : AudioBitstreamFormat
  pcm_int16_le_interleaved opus_packet amr_nb_frame : AudioBitstreamFormat

pub data VideoBitstreamFormat : Type 0 where
  no_video_stream h264_annex_b h265_annex_b mjpeg_jfif : VideoBitstreamFormat

abbrev pub output_states : List OutputState
output_states = idle ∷ buffering ∷ delivering ∷ failed ∷ paused ∷ completed ∷ []

abbrev pub audio_sample_formats : List AudioSampleFormat
audio_sample_formats = no_samples ∷ int16_le_interleaved ∷ []

abbrev pub pixel_formats : List PixelFormat
pixel_formats = no_pixels ∷ i420 ∷ nv12 ∷ rgba8888 ∷ []

abbrev pub audio_codecs : List AudioCodec
audio_codecs = no_audio ∷ g711a ∷ aac ∷ pcm ∷ opus ∷ amr ∷ []

abbrev pub video_codecs_by_native : List (ℕ × VideoCodec)
video_codecs_by_native = (0, no_video) ∷ (65, h264) ∷ (66, h265) ∷ (67, mjpeg) ∷ []

abbrev pub audio_bitstream_formats : List AudioBitstreamFormat
audio_bitstream_formats =
    no_audio_stream ∷ g711a_packet ∷ aac_adts ∷ aac_raw_access_unit ∷ pcm_int16_le_interleaved
    ∷ opus_packet ∷ amr_nb_frame ∷ []

abbrev pub video_bitstream_formats : List VideoBitstreamFormat
video_bitstream_formats = no_video_stream ∷ h264_annex_b ∷ h265_annex_b ∷ mjpeg_jfif ∷ []

-- The item of a tuple and the value of a dict, with the errors of a number that is not there.
unfoldable pub item : {A : Type 0} → List A → ℕ → Result A
item [] n = err (foreign "IndexError")
item (a ∷ table) zero = ok a
item (a ∷ table) (suc n) = item table n

unfoldable pub value_at : {A : Type 0} → List (ℕ × A) → ℕ → Result A
value_at [] n = err (builtin key_error "number")
value_at ((key, a) ∷ table) n = if key == n then ok a else value_at table n

-- The members of a table have the numbers from `k` on, in their order.
abbrev pub Numbered : {A : Type 0} → (A → ℕ) → ℕ → List A → Type 0
Numbered number k [] = Unit {0}
Numbered number k (a ∷ table) = (number a ≡ k) × Numbered number (suc k) table

item-Numbered :
    {A : Type 0} (number : A → ℕ) (k : ℕ) (table : List A) (n : ℕ) (a : A)
    → Numbered number k table
    → item table n ≡ ok a
    → number a ≡ k + n
unfolding item
item-Numbered number k [] n a at h = absurd (ground (arith, h))
item-Numbered number k (b ∷ table) zero a (first, rest) h =
    let same = ap number (ok_injective b a h) in ground (arith, same, first)
item-Numbered number k (b ∷ table) (suc n) a (first, rest) h =
    let later = item-Numbered number (suc k) table n a rest h in ground (arith, later)

pub read-Numbered :
    {A : Type 0} (number : A → ℕ) (table : List A) (n : ℕ) (a : A)
    → Numbered number 0 table
    → item table n ≡ ok a
    → number a ≡ n
read-Numbered number table n a at h =
    let same = item-Numbered number 0 table n a at h in ground (arith, same)

abbrev pub Keyed : {A : Type 0} → (A → ℕ) → List (ℕ × A) → Type 0
Keyed number [] = Unit {0}
Keyed number ((key, a) ∷ table) = (number a ≡ key) × Keyed number table

pub value_at-Keyed :
    {A : Type 0} (number : A → ℕ) (table : List (ℕ × A)) (n : ℕ) (a : A)
    → Keyed number table
    → value_at table n ≡ ok a
    → number a ≡ n
unfolding value_at
value_at-Keyed number [] n a at h = absurd (ground (arith, h))
value_at-Keyed {A} number ((key, b) ∷ table) n a (first, rest) h = elim (Bool-cases (key == n)) [
  | inl here ↦
      let same = ap number (ok_injective b a (ground (arith, here, h))) in
      ground (arith, same, first, here)
  | inr other ↦ value_at-Keyed number table n a rest (ground (arith, other, h))
]
