-- ===== src/Dispatch/System.antt =====
-- A dispatcher among its callers and the executor's workers, as a step relation. `owed` counts the
-- threads that still have to hand the dispatcher to the executor after a lock section, `ready` its
-- entries in the executor's queue (`_CallbackExecutor.schedule`, `_run`), and `running` the workers
-- inside its callback. `accepted` and `started` are the native tasks taken in and begun so far.
use tirtc_client_python.Prelude.{
  ℕ, suc, ◌+◌, ◌≡◌, Bool, false, String, Option, none, some, List, [], ◌∷◌, ◌++◌, str_eq,
  if◌then◌else◌,
}
use tirtc_client_python.Objects.{Object}
use tirtc_client_python.Dispatch.{
  Dispatcher, Posted, Delivery, run_native_task, call_handler, handler_gone, new, native_sink,
  post_native_task, drain_begin, drain_end, close_begin, discard,
}

pub record World : Type 0 where
  pub dispatcher : Dispatcher
  pub owed : ℕ
  pub ready : ℕ
  pub running : ℕ
  pub accepted : List Object
  pub started : List Object

abbrev pub initial : ℕ → Option ℕ → World
initial capacity frame_capacity = record {
  dispatcher = new capacity frame_capacity;
  owed = 0;
  ready = 0;
  running = 0;
  accepted = [];
  started = [];
}

abbrev pub posted : World → Posted → List Object → World
posted w p tasks = record w {
  dispatcher = p.dispatcher;
  owed = w.owed + (if p.schedule then 1 else 0);
  accepted = if p.accepted then w.accepted ++ tasks else w.accepted;
}

abbrev pub task_of : Delivery → List Object
task_of (run_native_task (some task)) = task ∷ []
task_of (run_native_task none) = []
task_of (call_handler kind values) = []
task_of handler_gone = []

-- A worker has taken the dispatcher out of the queue, with `n` entries left there.
abbrev pub taken : World → ℕ → Dispatcher × Option Delivery → World
taken w n (d, none) = record w { dispatcher = d; ready = n }
taken w n (d, some delivery) = record w {
  dispatcher = d;
  ready = n;
  running = suc w.running;
  started = w.started ++ task_of delivery;
}

abbrev pub finished : World → ℕ → Dispatcher × Bool → World
finished w n (d, again) = record w {
  dispatcher = d;
  running = n;
  owed = w.owed + (if again then 1 else 0);
}

pub data Step (w : World) : World → Type 0 where
  sinks :
      (kind : String) (values : List Object)
      → str_eq kind "native_task" ≡ false
      → Step w (posted w (native_sink w.dispatcher kind values) [])
  posts_task :
      (task : Object) (p : Posted)
      → post_native_task w.dispatcher task ≡ some p
      → Step w (posted w p (task ∷ []))
  schedules : (n : ℕ) → w.owed ≡ suc n → Step w (record w { owed = n; ready = suc w.ready })
  takes :
      (n : ℕ) (handler_alive : Bool)
      → w.ready ≡ suc n
      → Step w (taken w n (drain_begin handler_alive w.dispatcher))
  finishes : (n : ℕ) → w.running ≡ suc n → Step w (finished w n (drain_end w.dispatcher))
  closes : Step w (record w { dispatcher = close_begin w.dispatcher })
  discards : Step w (record w { dispatcher = discard w.dispatcher })

pub data Reach (s : World) : World → Type 0 where
  here : Reach s s
  next : {t u : World} → Reach s t → Step t u → Reach s u
