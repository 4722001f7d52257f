-- ===== src/Storage/Replay/Ranges.antt =====
-- What `play` and `seek` let through to native code.
use tirtc_client_python.Prelude.{◌≡◌, false, Option, none, some}
use tirtc_client_python.Prelude.Int.{ℤ, pos, ltb_ℤ, leb_ℤ}
use tirtc_client_python.Errors.Action.{ok, Action}
use tirtc_client_python.Lifecycle.{open_}
use tirtc_client_python.Calls.Closing.{Closable}
use tirtc_client_python.Util.Moments.{TimeArgument, datetime_ms}
use tirtc_client_python.Storage.Replay.{Replay, Native}

-- `ms` is in the range from `start` up to and without `end`.
abbrev pub IsWithin : ℤ → ℤ → ℤ → Type 0
IsWithin ms start end = (ltb_ℤ ms start ≡ false) × (leb_ℤ end ms ≡ false)

-- Without a range, or inside it.
abbrev pub IsAllowed : ℤ → Option (ℤ × ℤ) → Type 0
IsAllowed ms none = Unit {0}
IsAllowed ms (some (start, end)) = IsWithin ms start end

-- The moment that a `play` starts at: the one given, or the start.
abbrev pub IsInitial : ℤ → Option TimeArgument → ℤ → Type 0
IsInitial start none initial = initial ≡ start
IsInitial start (some t) initial = datetime_ms t "initial_time" ≡ ok initial

module _ {N : Type 0} (native : Native N) where
  -- The native play, its moments those of the arguments, and what it leaves.
  pub record PlayedFrom (o : Option TimeArgument) (start end : ℤ) (s t : Closable Replay N)
      : Type 0 where
    pub initial : ℤ
    pub initial_is : IsInitial start o initial
    pub ordered : leb_ℤ end start ≡ false
    pub first : IsWithin initial start end
    pub was_open : s.coordinator.status ≡ open_
    pub called : native.replay_play start end initial s.object.world ≡ (pos 0, t.object.world)
    pub self :
        t.object.self
        ≡ record s.object.self { playback_range = some (start, end); native_stopped = false }

  -- The native seek, in the range that was kept.
  pub record Sought (ms : ℤ) (s t : Closable Replay N) : Type 0 where
    pub allowed : IsAllowed ms s.object.self.playback_range
    pub was_open : s.coordinator.status ≡ open_
    pub before : N
    pub called : native.replay_seek ms before ≡ (pos 0, t.object.world)
    pub self : t.object.self ≡ s.object.self
