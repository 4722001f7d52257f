-- ===== src/Storage/Values/Decoding.antt =====
-- What a decoded report has to do with the native one, and the table of speeds.
use tirtc_client_python.Prelude.{
  ◌*◌, ◌≡◌, ◌≢◌, ◌⊎◌, inl, inr, ap, refl, subst, suc, ◌-◌, Option, none, some, List, [], ◌∷◌, arith,
  Bool-cases, ◌==◌,
}
use tirtc_client_python.Prelude.Int.{ℤ, pos, negsuc}
use tirtc_client_python.Errors.{TirtcError}
use tirtc_client_python.Errors.Action.{Exception, builtin, value_error, Result, ok}
use tirtc_client_python.Errors.Fallible.{bind-ok, ok_injective, ◌>>=◌}
use tirtc_client_python.Storage.Values.{
  entry, each, or_raise, enum_of, track_kinds, gap_reasons, terminations, RecordingRange,
  RecordingTrack, RecordingGap, RecordingGapReason, ExportSegment, ExportReport, NativeGap,
  NativeSegment, NativeReport, range_of, track_of, recording_gap_from_native, segment_of, cause_of,
  export_report_from_native, ReplaySpeed, x0_125, x0_25, x0_5, x1, x2, x4, x8, speed_to_native,
  speed_from_native, inverted,
}
use tirtc_client_python.Util.Moments.{datetime_from_ms}

-- The two lists have the same length, and their members stand in the relation one by one.
abbrev pub All2 : {A B : Type 0} → (A → B → Type 0) → List A → List B → Type 0
All2 R [] [] = Unit {0}
All2 R (a ∷ xs) (b ∷ bs) = R a b × All2 R xs bs
All2 R _ _ = ⊥

pub each-All2 :
    {A B : Type 0} (f : A → Result B) (R : A → B → Type 0) (xs : List A) (bs : List B)
    → ((a : A) (b : B) → f a ≡ ok b → R a b)
    → each f xs ≡ ok bs
    → All2 R xs bs
each-All2 f R [] [] sound h = tt
each-All2 f R [] (b ∷ bs) sound h = ground arith
each-All2 f R (a ∷ xs) bs sound h =
    let (b, one, rest) = bind-ok (f a) (λ b. each f xs >>= λ cs. ok (b ∷ cs)) bs h in
    let (cs, all, built) = bind-ok (each f xs) (λ cs. ok (b ∷ cs)) bs rest in
    subst (All2 R (a ∷ xs)) (ok_injective _ _ built) (sound a b one, each-All2 f R xs cs sound all)

pub speed_round : (s : ReplaySpeed) → speed_from_native (speed_to_native s) ≡ ok s
unfolding speed_from_native speed_to_native inverted
speed_round x0_125 = refl
speed_round x0_25 = refl
speed_round x0_5 = refl
speed_round x1 = refl
speed_round x2 = refl
speed_round x4 = refl
speed_round x8 = refl

speed_known : (v : ℤ) (s : ReplaySpeed) → speed_from_native v ≡ ok s → v ≡ speed_to_native s
unfolding speed_from_native speed_to_native inverted
speed_known (pos n) s h = ground arith
speed_known (negsuc n) s h = ground arith

-- The two tables of speeds are inverse to each other: every speed comes back from its number, and
-- a number that is read as a speed is the number of that speed.
pub speed_tables_inverse :
    (s r : ReplaySpeed) (v : ℤ)
    → speed_from_native v ≡ ok r
    → (speed_from_native (speed_to_native s) ≡ ok s) × (v ≡ speed_to_native r)
speed_tables_inverse s r v h = (speed_round s, speed_known v r h)

abbrev pub thousandfold : ℤ → ℤ
thousandfold (pos n) = pos (n * 1000)
thousandfold (negsuc n) = negsuc (suc n * 1000 - 1)

moment : (v m : ℤ) → datetime_from_ms v ≡ ok m → m ≡ thousandfold v
unfolding datetime_from_ms
moment (pos n) m h = ground arith
moment (negsuc n) m h = ground arith

abbrev pub IsRange : ℤ × ℤ → RecordingRange → Type 0
IsRange (start, end) r = (r.start_time ≡ thousandfold start) × (r.end_time ≡ thousandfold end)

range_of-IsRange : (v : ℤ × ℤ) (r : RecordingRange) → range_of v ≡ ok r → IsRange v r
unfolding range_of
range_of-IsRange (start, end) r h =
    let (a, first, rest) = bind-ok (datetime_from_ms start) _ r h in
    let (b, second, built) = bind-ok (datetime_from_ms end) _ r rest in
    subst (IsRange (start, end)) (ok_injective _ _ built)
      (moment start a first, moment end b second)

abbrev pub IsTrack : ℤ × ℤ → RecordingTrack → Type 0
IsTrack (kind, channel) t = (entry track_kinds kind ≡ some t.kind) × (t.channel_id ≡ channel)

abbrev pub IsReason : ℤ → RecordingGapReason → Type 0
IsReason reason r = entry gap_reasons reason ≡ some r

abbrev pub IsGap : NativeGap → RecordingGap → Type 0
IsGap v g =
    IsRange (v.start, v.end) g.range
    × All2 IsTrack v.tracks g.tracks
    × All2 IsReason v.reasons g.reasons

abbrev pub IsSegment : NativeSegment → ExportSegment → Type 0
IsSegment v s =
    IsRange (v.start, v.end) s.source_range
    × (s.output_start_ms ≡ v.output_start)
    × (s.output_end_ms ≡ v.output_end)

or_raise-some :
    {A : Type 0} (e : Exception) (o : Option A) (a : A) → or_raise e o ≡ ok a → o ≡ some a
or_raise-some e none a h = ground (arith, h)
or_raise-some e (some b) a h = ap some (ok_injective b a h)

enum_of-entry :
    {A : Type 0} (table : List (ℤ × A)) (value : ℤ) (a : A)
    → enum_of table value ≡ ok a
    → entry table value ≡ some a
unfolding enum_of
enum_of-entry table value a h =
    or_raise-some (builtin value_error "not a valid member") (entry table value) a h

track_of-IsTrack : (v : ℤ × ℤ) (t : RecordingTrack) → track_of v ≡ ok t → IsTrack v t
unfolding track_of
track_of-IsTrack (kind, channel) t h =
    let (k, known, built) = bind-ok (enum_of track_kinds kind) _ t h in
    subst (IsTrack (kind, channel)) (ok_injective _ _ built)
      (enum_of-entry track_kinds kind k known, refl)

recording_gap_from_native-IsGap :
    (v : NativeGap) (g : RecordingGap) → recording_gap_from_native v ≡ ok g → IsGap v g
unfolding recording_gap_from_native
recording_gap_from_native-IsGap v g h =
    let (range, h1, rest1) = bind-ok (range_of (v.start, v.end)) _ g h in
    let (tracks, h2, rest2) = bind-ok (each track_of v.tracks) _ g rest1 in
    let (reasons, h3, built) = bind-ok (each (enum_of gap_reasons) v.reasons) _ g rest2 in
    subst (IsGap v) (ok_injective _ _ built) (
      range_of-IsRange _ range h1,
      each-All2 track_of IsTrack v.tracks tracks track_of-IsTrack h2,
      each-All2 (enum_of gap_reasons) IsReason v.reasons reasons (enum_of-entry gap_reasons) h3,
    )

segment_of-IsSegment : (v : NativeSegment) (s : ExportSegment) → segment_of v ≡ ok s → IsSegment v s
unfolding segment_of
segment_of-IsSegment v s h =
    let (range, h1, built) = bind-ok (range_of (v.start, v.end)) _ s h in
    subst (IsSegment v) (ok_injective _ _ built) (range_of-IsRange _ range h1, refl, refl)

-- What a report has to do with the native one.
pub record IsReport (error_of : ℤ → TirtcError) (v : NativeReport) (r : ExportReport) : Type 0 where
  pub range : IsRange (v.start, v.end) r.requested_range
  pub segments : All2 IsSegment v.segments r.segments
  pub gaps : All2 IsGap v.gaps r.gaps
  pub unprocessed : All2 IsRange v.unprocessed r.unprocessed_ranges
  pub termination : entry terminations v.termination ≡ some r.termination
  pub covered : r.covered_duration_ms ≡ v.covered
  pub complete : r.complete ≡ v.complete
  pub cause : (v.cause ≡ pos 0) ⊎ (r.cause ≡ some (error_of v.cause))
  pub no_cause : (r.cause ≡ none) ⊎ (v.cause ≢ pos 0)

cause_given :
    (error_of : ℤ → TirtcError) (code : ℤ)
    → (code ≡ pos 0) ⊎ (cause_of error_of code ≡ some (error_of code))
unfolding cause_of
cause_given error_of (pos n) = elim (Bool-cases (n == 0)) [
  | inl z ↦ inl (ground arith)
  | inr z ↦ inr (ground arith)
]
cause_given error_of (negsuc n) = inr refl

cause_missing :
    (error_of : ℤ → TirtcError) (code : ℤ) → (cause_of error_of code ≡ none) ⊎ (code ≢ pos 0)
unfolding cause_of
cause_missing error_of (pos n) = elim (Bool-cases (n == 0)) [
  | inl z ↦ inl (ground arith)
  | inr z ↦ inr (λ h. ground (arith, h))
]
cause_missing error_of (negsuc n) = inr (λ h. ground (arith, h))

-- A report that is decoded says what the native one says: its moments are a thousand times the
-- milliseconds, its segments, gaps, tracks, reasons and ranges are the native ones in their order,
-- each number of an enumeration is read by its table, and the cause is there just where its code
-- is not zero.
pub export_report_from_native-IsReport :
    (error_of : ℤ → TirtcError) (v : NativeReport) (r : ExportReport)
    → export_report_from_native error_of v ≡ ok r
    → IsReport error_of v r
unfolding export_report_from_native
export_report_from_native-IsReport error_of v r h =
    let (range, h1, rest1) = bind-ok (range_of (v.start, v.end)) _ r h in
    let (segments, h2, rest2) = bind-ok (each segment_of v.segments) _ r rest1 in
    let (gaps, h3, rest3) = bind-ok (each recording_gap_from_native v.gaps) _ r rest2 in
    let (unprocessed, h4, rest4) = bind-ok (each range_of v.unprocessed) _ r rest3 in
    let (termination, h5, built) = bind-ok (enum_of terminations v.termination) _ r rest4 in
    subst (IsReport error_of v) (ok_injective _ _ built) (record {
      range = range_of-IsRange _ range h1;
      segments = each-All2 segment_of IsSegment v.segments segments segment_of-IsSegment h2;
      gaps =
          each-All2 recording_gap_from_native IsGap v.gaps gaps recording_gap_from_native-IsGap h3;
      unprocessed = each-All2 range_of IsRange v.unprocessed unprocessed range_of-IsRange h4;
      termination = enum_of-entry terminations v.termination termination h5;
      covered = refl;
      complete = refl;
      cause = cause_given error_of v.cause;
      no_cause = cause_missing error_of v.cause;
    })
