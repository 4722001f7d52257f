-- ===== src/Clients.antt =====
-- The clients, which own the connections (src/tirtc/_core.py) and the clouds
-- (src/tirtc/storage/__init__.py). A child is known by a number, and its state is a part of the world.
mod Closing
mod Clouds
mod Tests
use tirtc_client_python.Prelude.{
  ℕ, String, Bool, true, false, not, Option, none, some, List, [], ◌∷◌, ◌==◌, keep_if,
  if◌then◌else◌,
}
use tirtc_client_python.Prelude.Int.{ℤ}
use tirtc_client_python.Errors.{in_use_error}
use tirtc_client_python.Errors.Action.{
  Exception, sdk, Result, ok, err, Action, pure, lift, raise_if, ◌>>=◌, ◌>>◌,
}
use tirtc_client_python.Objects.{Object}
use tirtc_client_python.Util.Validate.{nonempty_string}
use tirtc_client_python.Runtime.{Mode, access_key, external_token}
use tirtc_client_python.Calls.{
  Sdk, Held, Call, change, reads, checks, require_process, checked_value,
}
use tirtc_client_python.Calls.Closing.{Closable, Ended, outcome_result, opened, free, closing}
use tirtc_client_python.Children.{Children, calls, close_each}

-- `children` is the set of the connections or of the clouds.
pub record Client : Type 0 where
  pub mode : Mode
  pub children : List ℕ

abbrev pub add : ℕ → Client → Client
add c t = record t { children = c ∷ t.children }

-- `_finish_connection` and `_finish_cloud`
unfoldable pub discard_child : ℕ → Client → Client
discard_child c t = record t { children = keep_if (λ d. not (d == c)) t.children }

-- The children with what the end of their close does to the client.
unfoldable pub finishing : {N : Type 0} → Children N → Children (Held Client N)
unfolding discard_child
finishing children = record {
  close_child = λ c s.
      let (r, n) = children.close_child c s.world in
      (
        r,
        record {
          self = if children.child_closed c n then discard_child c s.self else s.self;
          world = n;
        },
      );
  child_closed = λ c s. children.child_closed c s.world;
}

module _ {N : Type 0} (native : Sdk N) (children : Children N)
    (lease_close : N → Result (Unit {0}) × N) where
  client_body : Call Client N (Option Exception)
  unfolding finishing close_each
  client_body s =
      (close_each (finishing children) s.self.children none >>= λ e. calls lease_close >> pure e) s

  client_result : Option Exception → Call Client N (Unit {0})
  client_result outcome = lift (outcome_result outcome)

  -- `Client.close` of a connection's client; `blocking` is whether the caller is a callback of an
  -- object below the client.
  unfoldable pub close_client : Bool → Action (Closable Client N) (Ended (Unit {0}))
  unfolding closing client_body client_result require_process in_use_error
  close_client blocking =
      free (require_process native)
      >> raise_if blocking (sdk in_use_error)
      >> closing (λ t. t) client_result client_body

module _ {N : Type 0} (native : Sdk N) (conn_create : Mode → N → (ℤ × ℕ) × N)
    (conn_upload : N → Result String × N) where
  add_connection : ℕ → Call Client N ℕ
  add_connection c = change (add c) >> pure c

  create_locked : Mode → Call Client N ℕ
  unfolding require_process checked_value add_connection
  create_locked mode =
      require_process native >> checked_value native (conn_create mode) >>= add_connection

  -- `Client.create_connection`; `callables` is what `_callable` comes to for the callbacks.
  unfoldable pub create_connection : Result (Unit {0}) → Action (Closable Client N) ℕ
  unfolding create_locked require_process
  create_connection callables =
      free (require_process native)
      >> lift callables
      >> opened (reads (λ t. t.mode) >>= create_locked)

  -- `Client.upload_logs`
  unfoldable pub upload_client_logs : Action (Closable Client N) String
  unfolding require_process
  upload_client_logs = free (require_process native) >> opened (calls conn_upload)

abbrev same_mode : Mode → Mode → Bool
same_mode access_key access_key = true
same_mode external_token external_token = true
same_mode _ _ = false

module _ {N : Type 0} (native : Sdk N)
    (open_device_native create_native : String → N → (ℤ × ℕ) × N) where
  native_open : Mode → String → N → (ℤ × ℕ) × N
  native_open access_key = open_device_native
  native_open external_token = create_native

  add_cloud : ℕ → Call Client N ℕ
  add_cloud c = change (add c) >> pure c

  open_locked : Mode → String → Call Client N ℕ
  unfolding in_use_error checked_value native_open add_cloud
  open_locked mode value =
      checks (λ t. not (same_mode t.mode mode)) (sdk in_use_error)
      >> checked_value native (native_open mode value)
      >>= add_cloud

  -- `_open` of a cloud's client
  unfoldable pub open_cloud : Mode → String → Action (Closable Client N) ℕ
  unfolding open_locked require_process
  open_cloud mode value = free (require_process native) >> opened (open_locked mode value)

  unfoldable pub open_device : Object → Action (Closable Client N) ℕ
  unfolding open_cloud nonempty_string
  open_device device_id = lift (nonempty_string device_id "device_id") >>= open_cloud access_key

  unfoldable pub open_with_token : Object → Action (Closable Client N) ℕ
  unfolding open_cloud nonempty_string
  open_with_token token = lift (nonempty_string token "token") >>= open_cloud external_token
