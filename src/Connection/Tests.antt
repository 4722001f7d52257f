-- ===== src/Connection/Tests.antt =====
-- An attempt that connects, one that a timeout cancels and one that the peer ends, with the
-- theorems at them.
use tirtc_client_python.Prelude.{◌≡◌, refl, true, some, arith}
use tirtc_client_python.Prelude.Int.{ℤ, pos}
use tirtc_client_python.Errors.{timeout_error}
use tirtc_client_python.Errors.Action.{Exception, sdk, foreign, ok}
use tirtc_client_python.Runtime.{access_key}
use tirtc_client_python.Connection.{
  connected, disconnected, Connection, with_attempt, begin_connect, handle_state, managed_complete,
  connect_started, finish_connect, connect_result, wait_result, cancel_begin,
}
use tirtc_client_python.Connection.System.{
  created, event, completes, begins, starts, Reach, here, next,
}
use tirtc_client_python.Connection.Results.{connect_outcome}
use tirtc_client_python.Connection.Failures.{CancelledWith, failure_is_final, cancel_decides}

abbrev code_error : ℤ → Exception
code_error code = foreign "native"

abbrev idle_connection : Connection
unfolding created
idle_connection = created access_key

abbrev trying : Connection
unfolding with_attempt
trying = (with_attempt access_key idle_connection).1

abbrev up : Connection
unfolding handle_state
up = (handle_state connected (pos 0) (connect_started true 1 trying)).0

started : Reach idle_connection trying
unfolding created with_attempt begin_connect
started = next here (begins access_key 1 trying refl)

reached : Reach idle_connection up
unfolding handle_state
reached = next (next started (starts true 1)) (event connected (pos 0))

returns : connect_result code_error ((finish_connect 1 up).attempts 1) ≡ ok tt
unfolding created with_attempt connect_started handle_state finish_connect connect_result
returns = refl

connect_outcome_example : (finish_connect 1 up).state ≡ connected
unfolding created with_attempt connect_started handle_state finish_connect connect_result
connect_outcome_example =
    connect_outcome code_error access_key up (finish_connect 1 up) 1 reached refl refl here

-- The peer ends it, then a success comes late.
abbrev ended : Connection
unfolding handle_state
ended = (handle_state disconnected (pos 0) trying).0

abbrev late : Connection
unfolding managed_complete
late = managed_complete 1 (pos 0) ended

failure_is_final_example : (late.attempts 1).terminal_code ≡ some (pos 6012)
unfolding created with_attempt handle_state managed_complete
failure_is_final_example =
    failure_is_final 1 (pos 6012) ended late refl (record { begun = omega arith; failed = refl })
      (next here (completes 1 (pos 0)))

-- A timeout cancels it, and a success comes late.
abbrev cancelled : Connection
unfolding cancel_begin
cancelled = (cancel_begin 1 (sdk timeout_error) trying).0

cancel_decides_example :
    CancelledWith
      (sdk timeout_error)
      (ok tt)
      ((managed_complete 1 (pos 0) cancelled).attempts 1)
      (wait_result code_error (ok tt) ((managed_complete 1 (pos 0) cancelled).attempts 1))
unfolding created with_attempt cancel_begin managed_complete
cancel_decides_example =
    cancel_decides code_error (ok tt) access_key trying (managed_complete 1 (pos 0) cancelled) 1
      (sdk timeout_error) started refl (next here (completes 1 (pos 0)))
