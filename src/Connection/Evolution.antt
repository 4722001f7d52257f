-- ===== src/Connection/Evolution.antt =====
-- What every step keeps of an attempt that has begun.
use tirtc_client_python.Prelude.{ℕ, ◌≤◌, ◌≡◌, subst, true, false, some, arith}
use tirtc_client_python.Prelude.Int.{ℤ}
use tirtc_client_python.Runtime.{Mode}
use tirtc_client_python.Connection.{
  Connection, is_active, is_zero, handle_state, managed_complete, with_attempt, connect_started,
  connect_refused, set_finished, finish_connect, cancel_begin, cancel_settle, cancel_completed,
  cancel_failed, cancel_ends, disconnect_ends,
}
use tirtc_client_python.Connection.System.{
  is_cancelling, Step, event, completes, begins, starts, refuses, ends, finishes, cancels, settles,
  completes_cancel, fails_cancel, ends_cancel, closes, disconnects_end,
}
use tirtc_client_python.Connection.Settling.{begin_connect-IsBegun}

abbrev pub Same : ℕ → Connection → Connection → Type 0
Same g c d =
    ((d.attempts g).error ≡ (c.attempts g).error)
    × ((d.attempts g).terminal_code ≡ (c.attempts g).terminal_code)

-- An attempt that is not active does not become it again, and where no cancellation of it runs
-- either, none begins and its error and code stay. A cancellation keeps its error, and a code that
-- is not 0 stays.
pub record Evolves (g : ℕ) (c d : Connection) : Type 0 where
  pub later : c.connect_generation ≤ d.connect_generation
  pub inactive : is_active g c.active_connect ≡ false → is_active g d.active_connect ≡ false
  pub calm :
      is_active g c.active_connect ≡ false
      → is_cancelling (c.attempts g) ≡ false
      → is_cancelling (d.attempts g) ≡ false
  pub same :
      is_active g c.active_connect ≡ false → is_cancelling (c.attempts g) ≡ false → Same g c d
  pub error_kept : (c.attempts g).cancelling ≡ true → (d.attempts g).error ≡ (c.attempts g).error
  pub cancelling : (c.attempts g).cancelling ≡ true → (d.attempts g).cancelling ≡ true
  pub failure :
      (code : ℤ)
      → is_zero code ≡ false
      → (c.attempts g).terminal_code ≡ some code
      → (d.attempts g).terminal_code ≡ some code

begun-Evolves :
    (g : ℕ) (mode : Mode) (c : Connection)
    → g ≤ c.connect_generation
    → Evolves g c (with_attempt mode c).1
unfolding with_attempt
begun-Evolves g mode c begun = record {
  later = ground arith;
  inactive = λ i. ground arith;
  calm = λ i k. ground arith;
  same = λ i k. (ground arith, ground arith);
  error_kept = λ k. ground arith;
  cancelling = λ k. ground arith;
  failure = λ n z f. ground arith;
}

pub Step-Evolves : {c d : Connection} (g : ℕ) → g ≤ c.connect_generation → Step c d → Evolves g c d
unfolding handle_state managed_complete connect_started connect_refused set_finished finish_connect
    cancel_begin cancel_settle cancel_completed cancel_failed cancel_ends disconnect_ends
Step-Evolves g begun (event state code) = record {
  later = ground arith;
  inactive = λ i. ground arith;
  calm = λ i q. ground arith;
  same = λ i q. (ground arith, ground arith);
  error_kept = λ q. ground arith;
  cancelling = λ q. ground arith;
  failure = λ n z f. ground arith;
}
Step-Evolves g begun (completes h code) = record {
  later = ground arith;
  inactive = λ i. ground arith;
  calm = λ i q. ground arith;
  same = λ i q. (ground arith, ground arith);
  error_kept = λ q. ground arith;
  cancelling = λ q. ground arith;
  failure = λ n z f. ground arith;
}
Step-Evolves g begun (starts b h) = record {
  later = ground arith;
  inactive = λ i. ground arith;
  calm = λ i q. ground arith;
  same = λ i q. (ground arith, ground arith);
  error_kept = λ q. ground arith;
  cancelling = λ q. ground arith;
  failure = λ n z f. ground arith;
}
Step-Evolves g begun (refuses h) = record {
  later = ground arith;
  inactive = λ i. ground arith;
  calm = λ i q. ground arith;
  same = λ i q. (ground arith, ground arith);
  error_kept = λ q. ground arith;
  cancelling = λ q. ground arith;
  failure = λ n z f. ground arith;
}
Step-Evolves g begun (ends h) = record {
  later = ground arith;
  inactive = λ i. ground arith;
  calm = λ i q. ground arith;
  same = λ i q. (ground arith, ground arith);
  error_kept = λ q. ground arith;
  cancelling = λ q. ground arith;
  failure = λ n z f. ground arith;
}
Step-Evolves g begun (finishes h a m) = record {
  later = ground arith;
  inactive = λ i. ground arith;
  calm = λ i q. ground arith;
  same = λ i q. (ground arith, ground arith);
  error_kept = λ q. ground arith;
  cancelling = λ q. ground arith;
  failure = λ n z f. ground arith;
}
Step-Evolves g begun (cancels h x) = record {
  later = ground arith;
  inactive = λ i. ground arith;
  calm = λ i q. ground arith;
  same = λ i q. (ground arith, ground arith);
  error_kept = λ q. ground arith;
  cancelling = λ q. ground arith;
  failure = λ n z f. ground arith;
}
Step-Evolves g begun (settles h k) = record {
  later = ground arith;
  inactive = λ i. ground arith;
  calm = λ i q. ground arith;
  same = λ i q. (ground arith, ground arith);
  error_kept = λ q. ground arith;
  cancelling = λ q. ground arith;
  failure = λ n z f. ground arith;
}
Step-Evolves g begun (completes_cancel h k) = record {
  later = ground arith;
  inactive = λ i. ground arith;
  calm = λ i q. ground arith;
  same = λ i q. (ground arith, ground arith);
  error_kept = λ q. ground arith;
  cancelling = λ q. ground arith;
  failure = λ n z f. ground arith;
}
Step-Evolves g begun (fails_cancel h x k) = record {
  later = ground arith;
  inactive = λ i. ground arith;
  calm = λ i q. ground arith;
  same = λ i q. (ground arith, ground arith);
  error_kept = λ q. ground arith;
  cancelling = λ q. ground arith;
  failure = λ n z f. ground arith;
}
Step-Evolves g begun (ends_cancel h k) = record {
  later = ground arith;
  inactive = λ i. ground arith;
  calm = λ i q. ground arith;
  same = λ i q. (ground arith, ground arith);
  error_kept = λ q. ground arith;
  cancelling = λ q. ground arith;
  failure = λ n z f. ground arith;
}
Step-Evolves g begun (closes k) = record {
  later = ground arith;
  inactive = λ i. ground arith;
  calm = λ i q. ground arith;
  same = λ i q. (ground arith, ground arith);
  error_kept = λ q. ground arith;
  cancelling = λ q. ground arith;
  failure = λ n z f. ground arith;
}
Step-Evolves g begun disconnects_end = record {
  later = ground arith;
  inactive = λ i. ground arith;
  calm = λ i q. ground arith;
  same = λ i q. (ground arith, ground arith);
  error_kept = λ q. ground arith;
  cancelling = λ q. ground arith;
  failure = λ n z f. ground arith;
}
Step-Evolves {c = c} g begun (begins mode h d b) =
    subst (λ p. Evolves g c p.1) (begin_connect-IsBegun mode c h d b).same
      (begun-Evolves g mode c begun)
