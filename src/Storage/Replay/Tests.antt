-- ===== src/Storage/Replay/Tests.antt =====
-- A replay that plays a minute, and a seek in it.
use tirtc_client_python.Prelude.{ℕ, true, false, none}
use tirtc_client_python.Prelude.Int.{pos}
use tirtc_client_python.Lifecycle.{new}
use tirtc_client_python.Util.Moments.{at}
use tirtc_client_python.Calls.Closing.{Closable}
use tirtc_client_python.Calls.Sample.{base, succeeds_now, returns_now}
use tirtc_client_python.Storage.Replay.{Replay, Native, prepared_replay, play, seek}

abbrev native : Native ℕ
native = record {
  base = base;
  replay_play = λ start end initial. succeeds_now;
  replay_pause = succeeds_now;
  replay_resume = succeeds_now;
  replay_seek = λ ms. succeeds_now;
  replay_set_speed = λ v. succeeds_now;
  replay_get_speed = λ n. ((pos 0, pos 0), n);
  replay_current_time = λ n. ((pos 0, (false, pos 0)), n);
  replay_stop = succeeds_now;
  close = succeeds_now;
  storage_recording_start = λ video audio. succeeds_now;
  storage_raw_dump_start = λ audio video n. ((pos 0, 1), n);
  dumps = record { close_child = λ c. returns_now; child_closed = λ c n. true };
  stop_recording = λ c. returns_now;
  detach_output = λ c. returns_now;
}

abbrev fresh : Closable Replay ℕ
unfolding prepared_replay new
fresh = record { coordinator = new; object = record { self = prepared_replay; world = 0 } }

abbrev playing : Closable Replay ℕ
unfolding play fresh
playing = (play native false (at (pos 0)) (at (pos 60_000_000)) none fresh).1

abbrev sought : Closable Replay ℕ
unfolding seek playing
sought = (seek native false (at (pos 5_000_000)) playing).1
