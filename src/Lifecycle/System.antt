-- ===== src/Lifecycle/System.antt =====
-- Any number of threads that share one coordinator, and how they interleave.
use tirtc_client_python.Prelude.{ℕ, Bool, true, false, Option, some, List, [], ◌∷◌, ◌++◌, ◌≡◌, ◌==◌}
use tirtc_client_python.Errors.Action.{Exception, Result}
use tirtc_client_python.Lifecycle.{
  Coordinator, Begun, own, wait, done, raised, new, begin, wake, fail, succeed,
}

-- Where a thread stands: outside, in the wait of `begin`, or between the `begin` that gave it a
-- generation and the `fail` or `succeed` for it.
pub data Pc : Type 0 where
  idle : Pc
  waiting : ℕ → Pc
  tearing_down : ℕ → Pc

pub record World : Type 0 where
  pub coordinator : Coordinator
  pub threads : List Pc

abbrev pub pc_of : Begun → Pc
pc_of (own g) = tearing_down g
pc_of (wait g) = waiting g
pc_of done = idle
pc_of (raised e) = idle

abbrev pub called : World → List Pc → List Pc → Bool → World
called w ls rs preflight = record {
  coordinator = (begin w.coordinator preflight).0;
  threads = ls ++ pc_of (begin w.coordinator preflight).1 ∷ rs;
}

abbrev pub left_by : Coordinator → List Pc → List Pc → World
left_by c ls rs = record { coordinator = c; threads = ls ++ idle ∷ rs }

-- One thread, between those in `ls` and those in `rs`, takes the lock and runs one section.
pub data Step (w : World) : World → Type 0 where
  begins :
      (ls rs : List Pc) (preflight : Bool)
      → w.threads ≡ ls ++ idle ∷ rs
      → Step w (called w ls rs preflight)
  wakes :
      (ls rs : List Pc) (g : ℕ) (c : Coordinator) (r : Result (Unit {0}))
      → w.threads ≡ ls ++ waiting g ∷ rs
      → wake w.coordinator g ≡ some (c, r)
      → Step w (left_by c ls rs)
  fails :
      (ls rs : List Pc) (g : ℕ) (e : Exception)
      → w.threads ≡ ls ++ tearing_down g ∷ rs
      → Step w (left_by (fail w.coordinator g e) ls rs)
  succeeds :
      (ls rs : List Pc) (g : ℕ) (e : Option Exception)
      → w.threads ≡ ls ++ tearing_down g ∷ rs
      → Step w (left_by (succeed w.coordinator g e) ls rs)

pub data Reach (s : World) : World → Type 0 where
  here : Reach s s
  next : {t u : World} → Reach s t → Step t u → Reach s u

abbrev pub all_idle : List Pc → Bool
all_idle [] = true
all_idle (idle ∷ ts) = all_idle ts
all_idle (_ ∷ ts) = false

-- An open object and threads that have not called it yet.
abbrev pub IsInitial : World → Type 0
IsInitial w = (w.coordinator ≡ new) × (all_idle w.threads ≡ true)

abbrev pub waits_for : ℕ → Pc → Bool
waits_for g idle = false
waits_for g (waiting h) = g == h
waits_for g (tearing_down h) = false

abbrev pub tears_down : ℕ → Pc → Bool
tears_down g idle = false
tears_down g (waiting h) = false
tears_down g (tearing_down h) = g == h

abbrev pub is_tearing_down : Pc → Bool
is_tearing_down (tearing_down h) = true
is_tearing_down _ = false
