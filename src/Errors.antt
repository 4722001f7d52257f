-- ===== src/Errors.antt =====
-- src/tirtc/_errors.py: the exception classes, the table of native codes, and the constructors of
-- the errors that the SDK raises by itself. A subclass of TiRTCError is a value of `ErrorType`.
pub mod Action
pub mod Fallible
pub mod Outcome
pub mod Inversion
use Prim.Native.String.{◌++◌}
use tirtc_client_python.Prelude.{
  ℕ, String, Option, none, some, List, [], ◌∷◌, ◌==◌, if◌then◌else◌, get_or,
}
use tirtc_client_python.Prelude.Text.{is_empty_text, decimal}
use tirtc_client_python.Prelude.Int.{ℤ, pos, negsuc}

pub data ErrorType : Type 0 where
  tirtc_error invalid_argument not_initialized already_initialized in_use not_started : ErrorType
  not_connected not_bound not_configured closed authentication operation_timeout : ErrorType
  remote_closed token_expired permission_denied resource_exhausted unsupported : ErrorType
  unsupported_format io no_frame no_recordable_media recording_overrun log_export : ErrorType
  log_upload cancelled range_too_large recording_unreadable recording_not_found : ErrorType
  recording_download_failed unavailable stopped network_unavailable : ErrorType
  endpoint_dns_resolution_failed : ErrorType

-- An instance: its class, `str(error)`, `code` and `name`.
pub record TirtcError : Type 0 where
  pub error_type : ErrorType
  pub message : String
  pub code : Option ℤ
  pub name : String

abbrev pub error_types : List (ℕ × ErrorType)
error_types =
    (6000, invalid_argument)
    ∷ (6001, not_initialized)
    ∷ (6008, authentication)
    ∷ (6009, operation_timeout)
    ∷ (6012, remote_closed)
    ∷ (6014, token_expired)
    ∷ (6022, already_initialized)
    ∷ (6024, permission_denied)
    ∷ (6026, in_use)
    ∷ (6027, not_started)
    ∷ (6028, not_connected)
    ∷ (6029, not_bound)
    ∷ (6030, not_configured)
    ∷ (6032, invalid_argument)
    ∷ (6043, resource_exhausted)
    ∷ (6044, io)
    ∷ (6045, io)
    ∷ (6046, io)
    ∷ (6048, log_export)
    ∷ (6049, log_upload)
    ∷ (6073, log_export)
    ∷ (6107, unsupported)
    ∷ (6111, permission_denied)
    ∷ (6112, resource_exhausted)
    ∷ (6113, unsupported_format)
    ∷ (6114, io)
    ∷ (6115, cancelled)
    ∷ (6117, range_too_large)
    ∷ (6118, no_frame)
    ∷ (6119, no_recordable_media)
    ∷ (6120, recording_overrun)
    ∷ (6121, io)
    ∷ (6122, recording_unreadable)
    ∷ (6123, unavailable)
    ∷ (6124, stopped)
    ∷ (6125, log_export)
    ∷ (6127, log_upload)
    ∷ (6128, log_upload)
    ∷ (6129, log_upload)
    ∷ (6130, operation_timeout)
    ∷ (6131, log_upload)
    ∷ (6132, log_upload)
    ∷ (6133, log_upload)
    ∷ (6134, recording_not_found)
    ∷ (6135, recording_download_failed)
    ∷ (6136, network_unavailable)
    ∷ (6137, endpoint_dns_resolution_failed)
    ∷ []

-- `_ERROR_TYPES.get(code)`
lookup : ℕ → List (ℕ × ErrorType) → Option ErrorType
lookup code [] = none
lookup code ((key, e) ∷ rest) = if code == key then some e else lookup code rest

unfoldable pub type_of_code : ℤ → ErrorType
unfolding lookup
type_of_code (pos n) = get_or (lookup n error_types) tirtc_error
type_of_code (negsuc n) = tirtc_error

-- `message or name`: an empty message counts as none.
detail : String → Option String → String
detail name none = name
detail name (some message) = if is_empty_text message then name else message

with_code : String → Option ℤ → String
with_code text none = text
with_code text (some code) = text ++ " (" ++ decimal code ++ ")"

-- `_new_error`
unfoldable pub new_error : ErrorType → Option ℤ → String → Option String → TirtcError
unfolding detail with_code
new_error error_type code name message = record {
  error_type = error_type;
  message = with_code (detail name message) code;
  code = code;
  name = name;
}

unfoldable pub error_from_code : ℤ → String → TirtcError
unfolding type_of_code new_error
error_from_code code name = new_error (type_of_code code) (some code) name none

unfoldable pub closed_error : TirtcError
unfolding new_error
closed_error = new_error closed none "closed" none

unfoldable pub in_use_error : TirtcError
unfolding new_error
in_use_error = new_error in_use (some (pos 6026)) "in_use" none

unfoldable pub timeout_error : TirtcError
unfolding new_error
timeout_error = new_error operation_timeout none "operation_timeout" none

unfoldable pub io_error : String → TirtcError
unfolding new_error
io_error message = new_error io none "io_failed" (some message)
