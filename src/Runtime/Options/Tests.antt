-- ===== src/Runtime/Options/Tests.antt =====
-- Options that are let through, and one that is not, with the theorems at them.
use tirtc_client_python.Prelude.{ℕ, ◌≡◌, refl, false, Option, none, some}
use tirtc_client_python.Objects.{Object, none_value, bool, str, other}
use tirtc_client_python.Errors.Action.{builtin, value_error, ok, err}
use tirtc_client_python.Runtime.{Configuration}
use tirtc_client_python.Runtime.Options.{ClientOptions, normalize_options}
use tirtc_client_python.Runtime.Options.Checks.{
  IsClean, IsAbsolutePath, IsCleanOption, normalize_options-IsUsable,
}

-- One object with an `__fspath__`.
abbrev fspath : ℕ → Option Object
fspath i = some (str "/var//cache/")

abbrev options : Object → ClientOptions
options cache_dir = record {
  app_id = str "app";
  cache_dir = cache_dir;
  endpoint = none_value;
  console_log_enabled = bool false;
}

abbrev configuration : Configuration
configuration = record {
  app_id = "app";
  cache_dir = "/var/cache";
  endpoint = none;
  console_log_enabled = false;
}

normalized : normalize_options fspath (some (options (other 5))) ≡ ok configuration
unfolding normalize_options
normalized = refl

relative :
    normalize_options fspath (some (options (str "cache")))
    ≡ err (builtin value_error "options.cache_dir must be absolute")
unfolding normalize_options
relative = refl

normalize_options-IsUsable_example :
    IsClean "app" × IsAbsolutePath "/var/cache" × IsCleanOption none
unfolding normalize_options
normalize_options-IsUsable_example =
    normalize_options-IsUsable fspath (some (options (other 5))) configuration refl
