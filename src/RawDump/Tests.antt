-- ===== src/RawDump/Tests.antt =====
-- Ids with a repetition and one that is out of range, with the theorems at the first.
use tirtc_client_python.Prelude.{◌≡◌, refl, List, [], ◌∷◌, any}
use tirtc_client_python.Prelude.Int.{ℤ, pos}
use tirtc_client_python.Objects.{Object, int}
use tirtc_client_python.Errors.Action.{builtin, value_error, ok, err}
use tirtc_client_python.RawDump.{seen, iterable, normalize_raw_dump_ids, raw_dump_options}
use tirtc_client_python.RawDump.Ids.{is_int, IsNormal, normalize_raw_dump_ids-IsNormal}

abbrev source : List Object
source = int (pos 3) ∷ int (pos 1) ∷ int (pos 3) ∷ []

abbrev ids : List ℤ
ids = pos 3 ∷ pos 1 ∷ []

normalized : normalize_raw_dump_ids (iterable source) "ids" (pos 15) ≡ ok ids
unfolding normalize_raw_dump_ids
normalized = refl

out_of_bounds :
    normalize_raw_dump_ids (iterable (int (pos 16) ∷ [])) "ids" (pos 15)
    ≡ err (builtin value_error "ids values must be from 0 through 15")
unfolding normalize_raw_dump_ids
out_of_bounds = refl

nothing_selected :
    raw_dump_options (iterable []) (iterable [])
    ≡ err (builtin value_error "at least one audio or video stream must be selected")
unfolding raw_dump_options
nothing_selected = refl

normalize_raw_dump_ids-IsNormal_example :
    IsNormal (pos 15) ids × ((v : ℤ) → seen v ids ≡ any (is_int v) source)
unfolding normalize_raw_dump_ids
normalize_raw_dump_ids-IsNormal_example =
    normalize_raw_dump_ids-IsNormal "ids" (pos 15) source ids refl
