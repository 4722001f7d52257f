-- ===== src/Connection/Results.antt =====
-- What `connect` returns or raises, and that nothing changes it afterwards.
use tirtc_client_python.Prelude.{
  ℕ, ◌≡◌, inl, inr, refl, true, ◌||◌, Option, none, some, arith, if◌then◌else◌, is_some, Bool-cases,
}
use tirtc_client_python.Prelude.Int.{ℤ}
use tirtc_client_python.Errors.Action.{Exception, Result, ok, err}
use tirtc_client_python.Runtime.{Mode}
use tirtc_client_python.Connection.Over.{IsOver, Reach-Same}
use tirtc_client_python.Connection.Evolution.{Same}
use tirtc_client_python.Connection.{
  connect_result, ConnectionState, connected, disconnected, Connection, is_active, is_zero,
  finish_connect, succeeds, raised_by,
}
use tirtc_client_python.Connection.System.{Reach, created, may_finish}
use tirtc_client_python.Connection.Settling.{IsSound, reached-IsSound}

-- `connect` returned and the state is connected, or it raised and the state is disconnected.
abbrev pub Agrees : Result (Unit {0}) → ConnectionState → Type 0
Agrees (ok u) state = state ≡ connected
Agrees (err e) state = state ≡ disconnected

raised_by-Agrees :
    (code_error : ℤ → Exception) (error : Option Exception) (code : Option ℤ)
    → (is_some code || is_some error) ≡ true
    → Agrees
        (raised_by code_error error code)
        (if succeeds error code then connected else disconnected)
unfolding raised_by
raised_by-Agrees code_error (some e) none h = refl
raised_by-Agrees code_error (some e) (some n) h = ground arith
raised_by-Agrees code_error none none h = ground arith
raised_by-Agrees code_error none (some n) h = elim (Bool-cases (is_zero n)) [
  | inl zero ↦ rw zero refl
  | inr nonzero ↦ rw nonzero refl
]

finished-Agrees :
    (code_error : ℤ → Exception) (g : ℕ) (c : Connection)
    → (c.attempts g).done ≡ is_some (c.attempts g).terminal_code
    → may_finish (c.attempts g) ≡ true
    → Agrees
        (raised_by code_error (c.attempts g).error (c.attempts g).terminal_code)
        (finish_connect g c).state
unfolding finish_connect
finished-Agrees code_error g c set may =
    raised_by-Agrees code_error (c.attempts g).error (c.attempts g).terminal_code (ground arith)

finish-IsOver :
    (g : ℕ) (c : Connection)
    → IsSound c
    → is_active g c.active_connect ≡ true
    → may_finish (c.attempts g) ≡ true
    → IsOver g (finish_connect g c)
unfolding finish_connect
finish-IsOver g c s active may = record {
  begun = s.begun g active;
  inactive = ground (arith, active);
  calm = ground (arith, may);
}

finish_keeps : (g : ℕ) (c : Connection) → Same g c (finish_connect g c)
unfolding finish_connect
finish_keeps g c = (ground arith, ground arith)

-- In any state that calls and events can lead to, where a connecting thread may come to
-- `_finish_connect`: whatever other threads and events do before that thread reads the result,
-- `connect` returns where the section set the state to connected, and raises where it set it to
-- disconnected.
pub connect_outcome :
    (code_error : ℤ → Exception) (mode : Mode) (c d : Connection) (g : ℕ)
    → Reach (created mode) c
    → is_active g c.active_connect ≡ true
    → may_finish (c.attempts g) ≡ true
    → Reach (finish_connect g c) d
    → Agrees (connect_result code_error (d.attempts g)) (finish_connect g c).state
unfolding connect_result
connect_outcome code_error mode c d g reach active may later =
    let sound = reached-IsSound mode c reach in
    let (over, (errors, codes)) = Reach-Same g later (finish-IsOver g c sound active may) in
    rw (errors, codes, (finish_keeps g c).0, (finish_keeps g c).1)
      (finished-Agrees code_error g c (sound.set g) may)
