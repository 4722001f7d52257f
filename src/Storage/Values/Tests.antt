-- ===== src/Storage/Values/Tests.antt =====
-- A report with a gap, decoded.
use tirtc_client_python.Prelude.{◌≡◌, refl, false, [], ◌∷◌}
use tirtc_client_python.Prelude.Int.{pos}
use tirtc_client_python.Errors.Action.{ok}
use tirtc_client_python.Util.Moments.{datetime_from_ms}
use tirtc_client_python.Calls.Sample.{named}
use tirtc_client_python.Storage.Values.{
  NativeReport, ExportReport, video, not_found, interrupted, export_report_from_native, x0_5, x8,
  speed_from_native, speed_to_native, cause_of,
}
use tirtc_client_python.Storage.Values.Decoding.{
  IsReport, export_report_from_native-IsReport, speed_tables_inverse,
}

abbrev native : NativeReport
native = record {
  start = pos 0;
  end = pos 2000;
  covered = pos 1000;
  complete = false;
  termination = pos 1;
  cause = pos 6001;
  segments =
      record { start = pos 0; end = pos 1000; output_start = pos 0; output_end = pos 1000 } ∷ [];
  gaps =
      record {
        start = pos 1000;
        end = pos 2000;
        tracks = (pos 1, pos 4) ∷ [];
        reasons = pos 1 ∷ [];
      }
      ∷ [];
  unprocessed = [];
}

abbrev report : ExportReport
unfolding cause_of
report = record {
  requested_range = record { start_time = pos 0; end_time = pos 2_000_000 };
  covered_duration_ms = pos 1000;
  segments =
      record {
        source_range = record { start_time = pos 0; end_time = pos 1_000_000 };
        output_start_ms = pos 0;
        output_end_ms = pos 1000;
      }
      ∷ [];
  gaps =
      record {
        range = record { start_time = pos 1_000_000; end_time = pos 2_000_000 };
        tracks = record { kind = video; channel_id = pos 4 } ∷ [];
        reasons = not_found ∷ [];
      }
      ∷ [];
  unprocessed_ranges = [];
  complete = false;
  termination = interrupted;
  cause = cause_of named (pos 6001);
}

export_report_from_native-IsReport_example : IsReport named native report
unfolding export_report_from_native report datetime_from_ms
export_report_from_native-IsReport_example =
    export_report_from_native-IsReport named native report refl

speed_tables_inverse_example :
    (speed_from_native (speed_to_native x0_5) ≡ ok x0_5) × (pos 3 ≡ speed_to_native x8)
unfolding speed_from_native
speed_tables_inverse_example = speed_tables_inverse x0_5 x8 (pos 3) refl
