-- ===== src/Runtime/Options.antt =====
-- src/tirtc/_runtime.py: `_validated_string`, `_normalize_options` and `_validate_access_keys`.
-- `fspath` is `__fspath__` of the caller's own objects: what it returns, or none without one.
mod Checks
mod Tests
use tirtc_client_python.Prelude.{ℕ, String, Bool, Option, none, some, if◌then◌else◌, not}
use tirtc_client_python.Prelude.Text.{is_empty_text}
use tirtc_client_python.Objects.{Object, none_value, bool, str, bytes, other}
use tirtc_client_python.Errors.Action.{builtin, Builtin, type_error, value_error, Result, ok, err}
use tirtc_client_python.Errors.Fallible.{◌>>=◌}
use tirtc_client_python.Runtime.{Configuration}
use tirtc_client_python.Runtime.Paths.{contains_nul, is_absolute, path_text}
use Prim.Native.String.{◌++◌}

-- The fields are not checked before `_normalize_options`.
pub record ClientOptions : Type 0 where
  pub app_id : Object
  pub cache_dir : Object
  pub endpoint : Object
  pub console_log_enabled : Object

refuse : {A : Type 0} → Builtin → String → Result A
refuse b message = err (builtin b message)

-- The two tests on a text.
checked_text : String → String → Result String
unfolding refuse contains_nul
checked_text value name =
    if is_empty_text value
    then refuse value_error (name ++ " must not be empty")
    else if contains_nul value
    then refuse value_error (name ++ " must not contain NUL")
    else ok value

-- `_validated_string` where `optional` is false, and where it is true.
unfoldable pub validated_string : Object → String → Result String
unfolding checked_text refuse
validated_string (str value) name = checked_text value name
validated_string _ name = refuse type_error (name ++ " must be str")

unfoldable pub optional_string : Object → String → Result (Option String)
unfolding checked_text refuse
optional_string none_value name = ok none
optional_string (str value) name = checked_text value name >>= λ text. ok (some text)
optional_string _ name = refuse type_error (name ++ " must be str or None")

-- `os.fspath`, then the test that it gave a text.
fs_text : Object → Result String
unfolding refuse
fs_text (str path) = ok path
fs_text (bytes path) = refuse type_error "options.cache_dir must resolve to str"
fs_text _ = refuse type_error "options.cache_dir must be str or os.PathLike[str]"

fs_path : (ℕ → Option Object) → Object → Result String
unfolding fs_text refuse
fs_path fspath (str path) = ok path
fs_path fspath (bytes path) = fs_text (bytes path)
fs_path fspath (other i) = elim (fspath i) [
  | none ↦ refuse type_error "options.cache_dir must be str or os.PathLike[str]"
  | some path ↦ fs_text path
]
fs_path fspath _ = refuse type_error "options.cache_dir must be str or os.PathLike[str]"

absolute_path : String → Result String
unfolding refuse contains_nul is_absolute path_text
absolute_path raw_path =
    if contains_nul raw_path
    then refuse value_error "options.cache_dir must not contain NUL"
    else if not (is_absolute (path_text raw_path))
    then refuse value_error "options.cache_dir must be absolute"
    else ok (path_text raw_path)

boolean_option : Object → Result Bool
unfolding refuse
boolean_option (bool b) = ok b
boolean_option _ = refuse type_error "options.console_log_enabled must be bool"

-- `none` for an argument that is no ClientOptions.
unfoldable pub normalize_options : (ℕ → Option Object) → Option ClientOptions → Result Configuration
unfolding validated_string optional_string fs_path absolute_path boolean_option refuse
normalize_options fspath none = refuse type_error "options must be ClientOptions"
normalize_options fspath (some options) = do
  app_id ← validated_string options.app_id "options.app_id"
  raw_path ← fs_path fspath options.cache_dir
  path ← absolute_path raw_path
  endpoint ← optional_string options.endpoint "options.endpoint"
  console ← boolean_option options.console_log_enabled
  ok (record {
    app_id = app_id;
    cache_dir = path;
    endpoint = endpoint;
    console_log_enabled = console;
  })

unfoldable pub validate_access_keys : Object → Object → Result (String × String)
unfolding validated_string
validate_access_keys access_key_id access_key_secret = do
  key_id ← validated_string access_key_id "access_key_id"
  secret ← validated_string access_key_secret "access_key_secret"
  ok (key_id, secret)
