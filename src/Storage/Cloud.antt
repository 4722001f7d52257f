-- ===== src/Storage/Cloud.antt =====
-- src/tirtc/storage/__init__.py: CloudStorage. Its list requests, replays and exports are known by
-- numbers, and their state is a part of the world.
pub mod Lists
pub mod Closing
use tirtc_client_python.Prelude.{
  ℕ, String, Bool, true, false, not, Option, none, some, List, [], ◌∷◌, ◌==◌, keep_if, is_empty,
  is_some, if◌then◌else◌,
}
use tirtc_client_python.Prelude.Int.{ℤ, pos, negsuc, leb_ℤ}
use tirtc_client_python.Errors.{in_use_error}
use tirtc_client_python.Errors.Action.{
  Exception, sdk, builtin, value_error, Result, ok, err, Action, pure, lift, raise_if, ◌>>=◌, ◌>>◌,
}
use tirtc_client_python.Objects.{Object}
use tirtc_client_python.Util.Validate.{nonempty_string, channel_id}
use tirtc_client_python.Util.Moments.{TimeArgument, datetime_ms}
use tirtc_client_python.Runtime.{Mode, access_key, external_token}
use tirtc_client_python.Calls.{
  Sdk, Held, Call, change, checks, caught, require_process, checked, checked_value, retry_in_use,
}
use tirtc_client_python.Calls.Closing.{Closable, Ended, outcome_result, opened, free, closing}
use tirtc_client_python.Children.{Children, without_id, calls, for_each, close_each}

-- `listed` is whether the client's `_clouds` holds the cloud.
pub record Cloud : Type 0 where
  pub mode : Mode
  pub requests : List ℕ
  pub replays : List ℕ
  pub exports : List ℕ
  pub listed : Bool

unfoldable pub prepared_cloud : Mode → Cloud
prepared_cloud mode = record {
  mode = mode;
  requests = [];
  replays = [];
  exports = [];
  listed = true;
}

unfoldable pub finish_replay : ℕ → Cloud → Cloud
finish_replay c t = record t { replays = without_id c t.replays }

unfoldable pub finish_export : ℕ → Cloud → Cloud
finish_export c t = record t { exports = without_id c t.exports }

-- What a cloud calls outside it. `close_export` is `_close_from_parent` of a task, and
-- `cancel_request` is `cancel_and_wait` of a request.
pub record Native (N : Type 0) : Type 0 where
  pub base : Sdk N
  pub storage_update_token : String → N → ℤ × N
  pub replay_create : Bool → Bool → N → ℤ × N
  pub export_create : (start end video audio : ℤ) → Bool → Bool → N → ℤ × N
  pub close : N → ℤ × N
  pub replays : Children N
  pub close_export : ℕ → N → Result (Unit {0}) × N
  pub cancel_request : ℕ → N → Result (Unit {0}) × N

module _ {N : Type 0} (native : Native N) where
  cloud_process : Action (Closable Cloud N) (Unit {0})
  unfolding require_process
  cloud_process = free (require_process native.base)

  is_external : Mode → Bool
  is_external external_token = true
  is_external access_key = false

  update_locked : String → Call Cloud N (Unit {0})
  unfolding in_use_error checked is_external
  update_locked token =
      checks (λ t. not (is_external t.mode)) (sdk in_use_error)
      >> checked native.base (native.storage_update_token token)

  unfoldable pub update_token : Object → Action (Closable Cloud N) (Unit {0})
  unfolding cloud_process nonempty_string update_locked
  update_token token = cloud_process >> lift (nonempty_string token "token") >>= λ value.
      opened (update_locked value)

  -- What a failed creation does before it raises again.
  undo : (Cloud → Cloud) → Result (Unit {0}) → Call Cloud N (Unit {0})
  undo f (ok u) = pure tt
  undo f (err e) = change f >> lift (err e)

  replay_locked : ℕ → Bool → Bool → Call Cloud N (Unit {0})
  unfolding checked undo finish_replay
  replay_locked replay on_time on_gap =
      change (λ t. record t { replays = replay ∷ t.replays })
      >> caught (checked native.base (native.replay_create on_time on_gap))
      >>= undo (finish_replay replay)

  -- `create_replay`, where `replay` is the new object and `callables` what `_callable` comes to.
  unfoldable pub create_replay :
      ℕ → Result (Unit {0}) → (on_time on_gap : Bool) → Action (Closable Cloud N) (Unit {0})
  unfolding cloud_process replay_locked
  create_replay replay callables on_time on_gap =
      cloud_process >> lift callables >> opened (replay_locked replay on_time on_gap)

  export_locked :
      ℕ → (start end video audio : ℤ) → (on_progress on_gap : Bool) → Call Cloud N (Unit {0})
  unfolding checked undo finish_export
  export_locked task start end video audio on_progress on_gap =
      change (λ t. record t { exports = task ∷ t.exports })
      >> caught
          (checked native.base (native.export_create start end video audio on_progress on_gap))
      >>= undo (finish_export task)

  export_audio : Option Object → Result ℤ
  unfolding channel_id
  export_audio none = ok (negsuc 0)
  export_audio (some audio) = channel_id audio "audio_channel_id"

  export_between :
      ℕ
      → (video_channel_id : Object) → (audio_channel_id : Option Object) → Result (Unit {0})
      → (on_progress on_gap : Bool) → ℤ
      → ℤ
      → Action (Closable Cloud N) (Unit {0})
  unfolding channel_id export_audio export_locked
  export_between task video_channel_id audio_channel_id callables on_progress on_gap start end =
      raise_if (leb_ℤ end start) (builtin value_error "start_time must be before end_time")
      >> lift (channel_id video_channel_id "video_channel_id")
      >>= λ video. lift (export_audio audio_channel_id) >>= λ audio.
          lift callables >> opened (export_locked task start end video audio on_progress on_gap)

  -- `export_recording`, where `task` is the new object.
  unfoldable pub export_recording :
      ℕ
      → (start_time end_time : TimeArgument) → (video_channel_id : Object)
      → (audio_channel_id : Option Object) → Result (Unit {0})
      → (on_progress on_gap : Bool) → Action (Closable Cloud N) (Unit {0})
  unfolding cloud_process datetime_ms export_between
  export_recording task start_time end_time video audio callables on_progress on_gap =
      cloud_process >> lift (datetime_ms start_time "start_time") >>= λ start.
      lift (datetime_ms end_time "end_time") >>= λ end.
      export_between task video audio callables on_progress on_gap start end

  -- The replays with the `_finish_replay` at the end of their close.
  cloud_replays : Children (Held Cloud N)
  unfolding finish_replay
  cloud_replays = record {
    close_child = λ c s.
        let (r, n) = native.replays.close_child c s.world in
        (
          r,
          record {
            self = if native.replays.child_closed c n then finish_replay c s.self else s.self;
            world = n;
          },
        );
    child_closed = λ c s. native.replays.child_closed c s.world;
  }

  -- The requests are waited for, the replays closed, and the exports, those of the start; then the
  -- handle.
  close_cloud_body : Call Cloud N (Option Exception)
  unfolding close_each cloud_replays retry_in_use
  close_cloud_body s =
      (for_each native.cancel_request s.self.requests
          >> close_each cloud_replays s.self.replays none
          >>= λ e.
              for_each native.close_export s.self.exports
              >> retry_in_use native.base native.close
              >> pure e)
        s

  -- `self._client._finish_cloud(self)`, and the error of a replay.
  finish_cloud : Cloud → Cloud
  finish_cloud t = record t { listed = false }

  cloud_result : Option Exception → Call Cloud N (Unit {0})
  cloud_result outcome = lift (outcome_result outcome)

  -- `_close_cloud`; `blocking` is whether the caller is a callback of an object below the cloud.
  unfoldable pub close_cloud : Bool → Action (Closable Cloud N) (Ended (Unit {0}))
  unfolding cloud_process in_use_error closing close_cloud_body finish_cloud cloud_result
  close_cloud blocking =
      cloud_process
      >> raise_if blocking (sdk in_use_error)
      >> closing finish_cloud cloud_result close_cloud_body
