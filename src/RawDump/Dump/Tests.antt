-- ===== src/RawDump/Dump/Tests.antt =====
-- A dump that stops and closes, with the theorems at it. The world is the clock's reading.
use tirtc_client_python.Prelude.{ℕ, ◌+◌, ◌≡◌, refl, true, false, none, some}
use tirtc_client_python.Prelude.Int.{ℤ, pos}
use tirtc_client_python.Errors.Action.{Exception, foreign, ok}
use tirtc_client_python.Util.Retry.{Clock, retry_in_use_result}
use tirtc_client_python.RawDump.Dump.{
  RawDumpArchive, Stopped, Dump, user, archive_of, stop, close, stop_reason_of,
}
use tirtc_client_python.RawDump.Dump.Closing.{Closes, close-Closes}

abbrev clock : Clock ℕ
clock = record { now = λ n. n; sleep = λ k n. n + k }

abbrev code_error : ℤ → Exception
code_error code = foreign "native"

abbrev stopped : Stopped
stopped = record {
  code = pos 0;
  capture_id = "capture";
  path = "/var/cache/dump";
  size = pos 10;
  sha256 = "00";
  duration_ms = pos 1500;
  complete = true;
  reason = pos 1;
  packets = pos 0;
  byte_count = pos 0;
  empty = false;
}

abbrev raw_dump_stop : ℕ → Stopped × ℕ
raw_dump_stop n = (stopped, n)

abbrev native_close : ℕ → ℤ × ℕ
native_close n = (pos 0, n)

abbrev running : Dump ℕ
running = record { archive = none; closed = false; parent = true; parent_told = false; world = 0 }

abbrev archive : RawDumpArchive
unfolding archive_of
archive = archive_of stopped

abbrev kept : Dump ℕ
kept = record running { archive = some archive }

by_user : stop_reason_of (pos 1) ≡ user
unfolding stop_reason_of
by_user = refl

closes :
    close clock code_error raw_dump_stop native_close (ok tt) false running
    ≡ (ok tt, record kept { closed = true; parent = false; parent_told = true })
unfolding close stop archive_of retry_in_use_result
closes = refl

close-Closes_example :
    Closes clock code_error raw_dump_stop native_close running
      (close clock code_error raw_dump_stop native_close (ok tt) false running)
close-Closes_example = close-Closes clock code_error raw_dump_stop native_close running refl
