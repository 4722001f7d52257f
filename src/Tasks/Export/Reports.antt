-- ===== src/Tasks/Export/Reports.antt =====
-- Progress and reports leave the outcome of an ExportTask as it is.
use tirtc_client_python.Prelude.{refl, not, Option, none, some, if-cases}
use tirtc_client_python.Prelude.Int.{ℤ, leb_ℤ}
use tirtc_client_python.Errors.Action.{sdk, ok, lift, ◌>>◌}
use tirtc_client_python.Errors.{in_use_error}
use tirtc_client_python.Lifecycle.{Status, open_, closed, close_failed, closing as closing_}
use tirtc_client_python.Calls.{change, reads, checks, require_process, checked_value}
use tirtc_client_python.Calls.Closing.{free}
use tirtc_client_python.Calls.Effects.{checked_value-Moves}
use tirtc_client_python.Storage.Values.{NativeReport, ExportReport, export_report_from_native}
use tirtc_client_python.Tasks.Export.{
  Export, Native, store_report, decode_report, last_progress, read_progress, progress_locked,
  clamped, show_progress, refresh, refresh_open, progress_detail, set_progress, set_report,
  read_report, report_kept, load_report, report_of,
}
use tirtc_client_python.Tasks.Export.Evolution.{
  Evolves, Evolves-composes, same_outcome, still, process-Moved, free_process-Moved, Moved,
  ClosableMoved, chain, closable_chain,
}

module _ {N : Type 0} (native : Native N) where
  show_progress-Evolves : (v : ℤ × ℤ) (t : Export) → Evolves t (show_progress native v t)
  unfolding show_progress
  show_progress-Evolves (fraction, covered) t =
      if-cases (Evolves t) (leb_ℤ t.progress.fraction (clamped native.one fraction))
        (λ further. same_outcome _ _ refl refl refl refl) λ back. Evolves-composes.stay t

  refresh-Moved : Moved native (refresh native)
  unfolding refresh
  refresh-Moved =
      chain native (checked_value native.base native.export_progress)
        (λ v. change (show_progress native v))
        (checked_value-Moves Evolves Evolves-composes native.base native.export_progress)
        λ v s. show_progress-Evolves v s.self

  refresh_open-Moved : (status : Status) → Moved native (refresh_open native status)
  unfolding refresh_open
  refresh_open-Moved open_ s =
      if-cases (λ x. Evolves s.self x.1.self) s.self.prepared {x = refresh native s}
        (λ there. refresh-Moved s) λ gone. Evolves-composes.stay s.self
  refresh_open-Moved closing_ s = Evolves-composes.stay s.self
  refresh_open-Moved close_failed s = Evolves-composes.stay s.self
  refresh_open-Moved closed s = Evolves-composes.stay s.self

  pub progress_detail-Moved : ClosableMoved native (progress_detail native)
  unfolding progress_detail progress_locked
  progress_detail-Moved =
      closable_chain native (free (require_process native.base)) (λ _. progress_locked native)
        (free_process-Moved native)
        λ _ s.
          chain native (refresh_open native s.coordinator.status) (λ _. reads (λ t. t.progress))
            (refresh_open-Moved s.coordinator.status) (λ _. still native (λ t. ok t.progress))
            s.object

  store_report-Moved : (r : ExportReport) → Moved native (store_report native r)
  unfolding store_report set_report
  store_report-Moved r s = same_outcome _ _ refl refl refl refl

  decode_report-Moved : (v : NativeReport) → Moved native (decode_report native v)
  unfolding decode_report
  decode_report-Moved v =
      chain native (lift (export_report_from_native native.base.code_error v)) (store_report native)
        (λ s. Evolves-composes.stay s.self) store_report-Moved

  set_progress-Evolves : (p : ℤ × ℤ) (t : Export) → Evolves t (set_progress native p t)
  unfolding set_progress
  set_progress-Evolves (fraction, covered) t = same_outcome _ _ refl refl refl refl

  last_progress-Moved : (v : NativeReport) (p : ℤ × ℤ) → Moved native (last_progress native v p)
  unfolding last_progress
  last_progress-Moved v p =
      chain native (change (set_progress native p)) (λ _. decode_report native v)
        (λ s. set_progress-Evolves p s.self) λ _. decode_report-Moved v

  read_progress-Moved : (v : NativeReport) → Moved native (read_progress native v)
  unfolding read_progress
  read_progress-Moved v =
      chain native (checked_value native.base native.export_progress) (last_progress native v)
        (checked_value-Moves Evolves Evolves-composes native.base native.export_progress)
        (last_progress-Moved v)

  report_kept-Moved : (o : Option ExportReport) → Moved native (report_kept native o)
  unfolding report_kept read_report
  report_kept-Moved none =
      chain native (checked_value native.base native.export_report) (read_progress native)
        (checked_value-Moves Evolves Evolves-composes native.base native.export_report)
        read_progress-Moved
  report_kept-Moved (some r) = still native (λ t. ok r)

  pub load_report-Moved : Moved native (load_report native)
  unfolding load_report
  load_report-Moved =
      chain native (reads (λ t. t.report)) (report_kept native) (still native (λ t. ok t.report))
        report_kept-Moved

  pub report_of-Moved : Moved native (report_of native)
  unfolding report_of
  report_of-Moved =
      chain native (require_process native.base >> checks (λ t. not t.terminal) (sdk in_use_error))
        (λ _. load_report native)
        (chain native (require_process native.base)
          (λ _. checks (λ t. not t.terminal) (sdk in_use_error)) (process-Moved native)
          (λ _ s. Evolves-composes.stay s.self))
        λ _. load_report-Moved
