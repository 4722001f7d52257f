-- ===== src/RawDump.antt =====
-- src/tirtc/_raw_dump.py, `normalize_raw_dump_ids`, and RawDumpOptions of src/tirtc/_core.py.
mod Ids
mod Dump
mod Tests
use Prim.Native.String.{◌++◌}
use tirtc_client_python.Prelude.{
  ℕ, String, Bool, true, false, not, ◌&&◌, ◌||◌, List, [], ◌∷◌, ◌++◌ as append, any, is_empty,
  if◌then◌else◌,
}
use tirtc_client_python.Prelude.Text.{decimal}
use tirtc_client_python.Prelude.Int.{ℤ, pos, eqb_ℤ, ltb_ℤ}
use tirtc_client_python.Objects.{Object, int}
use tirtc_client_python.Errors.Action.{builtin, type_error, value_error, Result, ok, err}
use tirtc_client_python.Errors.Fallible.{◌>>=◌}

abbrev pub out_of_range : ℤ → ℤ → Bool
out_of_range maximum v = ltb_ℤ v (pos 0) || ltb_ℤ maximum v

-- `value in seen`: the set holds what the list of results holds.
abbrev pub seen : ℤ → List ℤ → Bool
seen v result = any (eqb_ℤ v) result

add_new : ℤ → List ℤ → List ℤ
add_new v result = if seen v result then result else append result (v ∷ [])

-- The loop, with the results so far. A bool is no integer here.
collect : String → ℤ → List ℤ → List Object → Result (List ℤ)
unfolding add_new decimal
collect name maximum result [] = ok result
collect name maximum result (int v ∷ source) =
    let further = collect name maximum (add_new v result) source in
    if out_of_range maximum v
    then err (builtin value_error (name ++ " values must be from 0 through " ++ decimal maximum))
    else further
collect name maximum result (o ∷ source) =
    err (builtin type_error (name ++ " values must be integers"))

-- What `tuple(values)` makes of an argument that is not a text or bytes, or that it is none.
pub data Argument : Type 0 where
  iterable : List Object → Argument
  not_iterable : Argument

unfoldable pub normalize_raw_dump_ids : Argument → String → ℤ → Result (List ℤ)
unfolding collect
normalize_raw_dump_ids (iterable source) name maximum = collect name maximum [] source
normalize_raw_dump_ids not_iterable name maximum =
    err (builtin type_error (name ++ " must be an iterable of integers"))

-- `RawDumpOptions.__post_init__`: the two fields as they are set.
unfoldable pub raw_dump_options : Argument → Argument → Result (List ℤ × List ℤ)
unfolding normalize_raw_dump_ids
raw_dump_options audio_stream_ids video_stream_ids = do
  audio ← normalize_raw_dump_ids audio_stream_ids "audio_stream_ids" (pos 15)
  video ← normalize_raw_dump_ids video_stream_ids "video_stream_ids" (pos 15)
  if is_empty audio && is_empty video
      then err (builtin value_error "at least one audio or video stream must be selected")
      else ok (audio, video)
