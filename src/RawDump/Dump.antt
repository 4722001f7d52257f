-- ===== src/RawDump/Dump.antt =====
-- src/tirtc/_raw_dump.py: `RawDump.stop` and `RawDump.close`. `process` is what `_check_process`
-- comes to, `blocking` whether the caller is a callback of the parent, and `code_error` is
-- `_error_from_code(code, _error_name(code))`.
mod Closing
mod Tests
use tirtc_client_python.Prelude.{
  ℕ, String, Bool, true, false, not, Option, none, some, ◌==◌, if◌then◌else◌,
}
use tirtc_client_python.Prelude.Int.{ℤ, pos, negsuc, eqb_ℤ}
use tirtc_client_python.Errors.{in_use_error, closed_error}
use tirtc_client_python.Errors.Action.{
  Exception, sdk, foreign, Result, ok, err, Action, pure, raise, raise_if, modify, lift, ◌>>=◌,
  ◌>>◌,
}
use tirtc_client_python.Util.Retry.{Clock, retry_in_use_result}

pub data RawDumpStopReason : Type 0 where
  unknown user time_limit byte_limit source_closed resource_limit write_failed : RawDumpStopReason

-- RawDumpArchive, with the duration in milliseconds.
pub record RawDumpArchive : Type 0 where
  pub capture_id : String
  pub path : String
  pub size : ℤ
  pub sha256 : String
  pub captured_duration : ℤ
  pub capture_complete : Bool
  pub stop_reason : RawDumpStopReason
  pub unsaved_packet_count : ℤ
  pub unsaved_byte_count : ℤ
  pub empty : Bool

-- What `_native.raw_dump_stop` gives, in order.
pub record Stopped : Type 0 where
  pub code : ℤ
  pub capture_id : String
  pub path : String
  pub size : ℤ
  pub sha256 : String
  pub duration_ms : ℤ
  pub complete : Bool
  pub reason : ℤ
  pub packets : ℤ
  pub byte_count : ℤ
  pub empty : Bool

-- `_RAW_DUMP_STOP_REASONS.get(reason, _RAW_DUMP_STOP_REASONS[0])`
unfoldable pub stop_reason_of : ℤ → RawDumpStopReason
stop_reason_of (pos n) =
    if n == 1
    then user
    else if n == 2
    then time_limit
    else if n == 3
    then byte_limit
    else if n == 4
    then source_closed
    else if n == 5
    then resource_limit
    else if n == 6
    then write_failed
    else unknown
stop_reason_of (negsuc n) = unknown

unfoldable pub archive_of : Stopped → RawDumpArchive
unfolding stop_reason_of
archive_of v = record {
  capture_id = v.capture_id;
  path = v.path;
  size = v.size;
  sha256 = v.sha256;
  captured_duration = v.duration_ms;
  capture_complete = v.complete;
  stop_reason = stop_reason_of v.reason;
  unsaved_packet_count = v.packets;
  unsaved_byte_count = v.byte_count;
  empty = v.empty;
}

-- `parent` is whether there is one still, and `parent_told` whether `_finish_raw_dump` was called.
pub record Dump (N : Type 0) : Type 0 where
  pub archive : Option RawDumpArchive
  pub closed : Bool
  pub parent : Bool
  pub parent_told : Bool
  pub world : N

module _ {N : Type 0} (clock : Clock N) (code_error : ℤ → Exception)
    (raw_dump_stop : N → Stopped × N) (native_close : N → ℤ × N) where
  check : ℤ → Action (Dump N) (Unit {0})
  check code = raise_if (not (eqb_ℤ code (pos 0))) (code_error code)

  -- The native stop, and the archive that is kept of it.
  stop_now : Action (Dump N) RawDumpArchive
  unfolding check archive_of
  stop_now d =
      let (v, n) = raw_dump_stop d.world in
      (check v.code >> (λ e. (ok (archive_of v), record e { archive = some (archive_of v) })))
        (record d { world = n })

  stop_kept : Option RawDumpArchive → Action (Dump N) RawDumpArchive
  unfolding stop_now
  stop_kept none = stop_now
  stop_kept (some archive) = pure archive

  unfoldable pub stop : Result (Unit {0}) → Bool → Action (Dump N) RawDumpArchive
  unfolding stop_kept in_use_error closed_error
  stop process blocking = lift process >> raise_if blocking (sdk in_use_error) >> λ d.
      if d.closed then raise (sdk closed_error) d else stop_kept d.archive d

  -- `_retry_in_use(_native.close, handle)`
  after_retry : Option (Result ℤ × N) → Action (Dump N) (Unit {0})
  unfolding check
  after_retry none d = raise (foreign "out of fuel") d
  after_retry (some (err e, n)) d = raise e (record d { world = n })
  after_retry (some (ok code, n)) d = check code (record d { world = n })

  close_native : Action (Dump N) (Unit {0})
  unfolding after_retry
  close_native d = after_retry (retry_in_use_result clock (λ c. c) native_close 5_000_000 d.world) d

  -- What follows the native close: `stop_error` is raised last.
  finish : Result RawDumpArchive → Action (Dump N) (Unit {0})
  finish (ok archive) d = (
    ok tt,
    record d {
      closed = true;
      parent = false;
      parent_told = if d.parent then true else d.parent_told;
    },
  )
  finish (err e) d = (
    err e,
    record d {
      closed = true;
      parent = false;
      parent_told = if d.parent then true else d.parent_told;
    },
  )

  close_open : Result RawDumpArchive → Action (Dump N) (Unit {0})
  unfolding close_native finish
  close_open stopped = close_native >> finish stopped

  unfoldable pub close : Result (Unit {0}) → Bool → Action (Dump N) (Unit {0})
  unfolding stop close_open in_use_error
  close process blocking = lift process >> raise_if blocking (sdk in_use_error) >> λ d.
      let (stopped, e) = stop process blocking d in
      if d.closed then (ok tt, d) else close_open stopped e
