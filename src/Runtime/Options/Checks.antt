-- ===== src/Runtime/Options/Checks.antt =====
-- What the options that are let through are like.
use tirtc_client_python.Prelude.{
  ℕ, ◌≡◌, subst, ap, String, Bool, true, false, Option, none, some, arith,
}
use tirtc_client_python.Prelude.Text.{is_empty_text}
use tirtc_client_python.Objects.{Object, none_value, bool, int, str, bytes, timedelta, other}
use tirtc_client_python.Errors.Action.{Result, ok, err}
use tirtc_client_python.Errors.Fallible.{bind-ok, ◌>>=◌}
use tirtc_client_python.Runtime.{Configuration}
use tirtc_client_python.Runtime.Paths.{contains_nul, is_absolute, path_text}
use tirtc_client_python.Runtime.Options.{
  ClientOptions, checked_text, validated_string, optional_string, fs_path, absolute_path,
  boolean_option, normalize_options,
}

-- Neither empty nor with a NUL inside.
abbrev pub IsClean : String → Type 0
IsClean s = (is_empty_text s ≡ false) × (contains_nul s ≡ false)

-- A POSIX path in its normal form that starts at the root, from a text without a NUL.
abbrev pub IsAbsolutePath : String → Type 0
IsAbsolutePath s =
    (raw : String) × (contains_nul raw ≡ false) × (s ≡ path_text raw) × (is_absolute s ≡ true)

abbrev pub IsCleanOption : Option String → Type 0
IsCleanOption none = Unit
IsCleanOption (some s) = IsClean s

checked_text-same : (value name text : String) → checked_text value name ≡ ok text → value ≡ text
unfolding checked_text
checked_text-same value name text h = ground arith

value-IsClean : (value name text : String) → checked_text value name ≡ ok text → IsClean value
unfolding checked_text
value-IsClean value name text h = (ground arith, ground arith)

checked_text-IsClean : (value name text : String) → checked_text value name ≡ ok text → IsClean text
checked_text-IsClean value name text h =
    subst IsClean (checked_text-same value name text h) (value-IsClean value name text h)

validated_string-IsClean :
    (o : Object) (name text : String) → validated_string o name ≡ ok text → IsClean text
unfolding validated_string
validated_string-IsClean (str value) name text h = checked_text-IsClean value name text h
validated_string-IsClean none_value name text h = ground arith
validated_string-IsClean (bool b) name text h = ground arith
validated_string-IsClean (int n) name text h = ground arith
validated_string-IsClean (bytes b) name text h = ground arith
validated_string-IsClean (timedelta d n u) name text h = ground arith
validated_string-IsClean (other i) name text h = ground arith

ok_same : {A : Type 0} (a b : A) → (ok a) ≡ ok b → a ≡ b
ok_same a b h = ap (λ r. elim r [ ok x ↦ x | err e ↦ a ]) h

optional_string-IsCleanOption :
    (o : Object) (name : String) (text : Option String)
    → optional_string o name ≡ ok text
    → IsCleanOption text
unfolding optional_string
optional_string-IsCleanOption none_value name text h = subst IsCleanOption (ok_same none text h) tt
optional_string-IsCleanOption (str value) name text h =
    let (value', checked, returned) = bind-ok (checked_text value name) (λ v. ok (some v)) text h in
    subst IsCleanOption (ok_same (some value') text returned)
      (checked_text-IsClean value name value' checked)
optional_string-IsCleanOption (bool b) name text h = ground arith
optional_string-IsCleanOption (int n) name text h = ground arith
optional_string-IsCleanOption (bytes b) name text h = ground arith
optional_string-IsCleanOption (timedelta d n u) name text h = ground arith
optional_string-IsCleanOption (other i) name text h = ground arith

absolute_path-IsAbsolutePath :
    (raw path : String) → absolute_path raw ≡ ok path → IsAbsolutePath path
unfolding absolute_path
absolute_path-IsAbsolutePath raw path h = (raw, ground arith, ground arith, ground arith)

-- The rest of the chain after each of its first four calls.
module _ (fspath : ℕ → Option Object) (o : ClientOptions) where
  with_console : String → String → Option String → Bool → Result Configuration
  with_console app_id path endpoint console = ok (record {
    app_id = app_id;
    cache_dir = path;
    endpoint = endpoint;
    console_log_enabled = console;
  })

  with_endpoint : String → String → Option String → Result Configuration
  unfolding with_console
  with_endpoint app_id path endpoint =
      boolean_option o.console_log_enabled >>= with_console app_id path endpoint

  with_path : String → String → Result Configuration
  unfolding with_endpoint
  with_path app_id path =
      optional_string o.endpoint "options.endpoint" >>= with_endpoint app_id path

  with_raw_path : String → String → Result Configuration
  unfolding with_path
  with_raw_path app_id raw_path = absolute_path raw_path >>= with_path app_id

  with_app_id : String → Result Configuration
  unfolding with_raw_path
  with_app_id app_id = fs_path fspath o.cache_dir >>= with_raw_path app_id

-- What `_normalize_options` returns: an application id and, where one is given, an endpoint that
-- are neither empty nor have a NUL inside, and the normal form of an absolute path, from a text
-- without a NUL.
pub normalize_options-IsUsable :
    (fspath : ℕ → Option Object) (options : Option ClientOptions) (c : Configuration)
    → normalize_options fspath options ≡ ok c
    → IsClean c.app_id × IsAbsolutePath c.cache_dir × IsCleanOption c.endpoint
unfolding normalize_options with_app_id
normalize_options-IsUsable fspath none c h = ground arith
normalize_options-IsUsable fspath (some o) c h =
    let (app_id, app_given, h1) =
      bind-ok (validated_string o.app_id "options.app_id") (with_app_id fspath o) c h in
    let (raw, raw_given, h2) =
      bind-ok (fs_path fspath o.cache_dir) (with_raw_path fspath o app_id) c h1 in
    let (path, path_given, h3) = bind-ok (absolute_path raw) (with_path fspath o app_id) c h2 in
    let (endpoint, endpoint_given, h4) =
      bind-ok (optional_string o.endpoint "options.endpoint") (with_endpoint fspath o app_id path) c
        h3 in
    let (console, console_given, h5) =
      bind-ok (boolean_option o.console_log_enabled) (with_console fspath o app_id path endpoint) c
        h4 in
    subst (λ c. IsClean c.app_id × IsAbsolutePath c.cache_dir × IsCleanOption c.endpoint)
      (ok_same _ c h5)
      (
        validated_string-IsClean o.app_id "options.app_id" app_id app_given,
        absolute_path-IsAbsolutePath raw path path_given,
        optional_string-IsCleanOption o.endpoint "options.endpoint" endpoint endpoint_given,
      )
