-- ===== src/Tasks/Export/System.antt =====
-- An ExportTask in use: calls and events in any order.
use tirtc_client_python.Prelude.{Bool, List, [], ◌∷◌}
use tirtc_client_python.Calls.Closing.{Closable, free}
use tirtc_client_python.Util.Moments.{TimeoutArgument}
use tirtc_client_python.Tasks.Export.{
  Export, Native, TaskEvent, handle_event, progress_detail, report_of, wait, cancel, stop_task,
  close_from_parent,
}

pub data Operation : Type 0 where
  event : TaskEvent → Operation
  ask_progress : Operation
  ask_report : Operation
  wait_for : (blocking : Bool) → TimeoutArgument → Operation
  cancels : Operation
  stops : (blocking : Bool) → Operation
  parent_closes : Operation

module _ {N : Type 0} (native : Native N) where
  unfoldable pub run : Operation → Closable Export N → Closable Export N
  unfolding handle_event progress_detail report_of wait cancel stop_task close_from_parent
  run (event e) s = record s {
    object = record s.object { self = (handle_event native s.object.world e s.object.self).0 };
  }
  run ask_progress s = (progress_detail native s).1
  run ask_report s = (free (report_of native) s).1
  run (wait_for blocking limit) s = (wait native blocking limit s).1
  run cancels s = (cancel native s).1
  run (stops blocking) s = (stop_task native blocking s).1
  run parent_closes s = (close_from_parent native s).1

  unfoldable pub run_all : List Operation → Closable Export N → Closable Export N
  unfolding run
  run_all [] s = s
  run_all (o ∷ rest) s = run_all rest (run o s)
