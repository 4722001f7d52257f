-- ===== src/Runtime/Paths.antt =====
-- What the standard library does that src/tirtc/_runtime.py uses on texts: the test for a NUL, and
-- `str(Path(text))` and `is_absolute` of a POSIX path.
use Prim.Native.String.{String, ◌++◌}
use tirtc_client_python.Prelude.{
  ◌≡◌, refl, Bool, true, false, not, ◌&&◌, ◌||◌, List, [], ◌∷◌, str_eq, if◌then◌else◌,
}
use tirtc_client_python.Prelude.Text.{is_empty_text}

-- `"\x00" in text`
unfoldable pub contains_nul : String → Bool
contains_nul String.[] = false
contains_nul (String.◌∷◌ c s) = str_eq (String.◌∷◌ c String.[]) "\0" || contains_nul s

is_slash : String → Bool
is_slash String.[] = false
is_slash (String.◌∷◌ c s) = str_eq (String.◌∷◌ c String.[]) "/"

unfoldable pub is_absolute : String → Bool
unfolding is_slash
is_absolute s = is_slash s

-- The parts between slashes, `part` being what was read of the first one.
parts : String → String → List String
parts part String.[] = part ∷ []
parts part (String.◌∷◌ c s) =
    let c' = String.◌∷◌ c String.[] in
    let after = parts "" s in
    let further = parts (part ++ c') s in if str_eq c' "/" then part ∷ after else further

joined : List String → String
joined [] = ""
joined (p ∷ ps) =
    let others = joined ps in
    if is_empty_text p || str_eq p "."
    then others
    else if is_empty_text others
    then p
    else p ++ "/" ++ others

after_first : String → String
after_first String.[] = String.[]
after_first (String.◌∷◌ c s) = s

-- Two leading slashes stay, any other number becomes one.
root : String → String
unfolding is_slash after_first
root s =
    if is_slash s
    then if is_slash (after_first s) && not (is_slash (after_first (after_first s)))
      then "//"
      else "/"
    else ""

unfoldable pub path_text : String → String
unfolding parts joined root
path_text s = let text = root s ++ joined (parts "" s) in if is_empty_text text then "." else text

test_nul : contains_nul "a\0b" ≡ true
unfolding contains_nul
test_nul = refl

test_path : path_text "//var//cache/./tirtc/" ≡ "//var/cache/tirtc"
unfolding path_text
test_path = refl

test_relative : path_text "./cache/.." ≡ "cache/.."
unfolding path_text
test_relative = refl
