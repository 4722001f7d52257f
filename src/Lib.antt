-- ===== src/Lib.antt =====
-- The Python SDK `tirtc`, a client for real-time audio and video over a native runtime. The files
-- are in src/tirtc; the native runtime is reached through native/extension.c, which binds a
-- library that is not in the repository.
--
-- The program's parts, and where they are modelled:
--   src/tirtc/_errors.py        Errors: the exception classes, the table of native codes and the
--                               constructors of errors (`_new_error` is `new_error`, and so on).
--                               Errors.Action and Errors.Fallible are chains of calls that may
--                               raise, with and without a state, and Errors.Outcome what one
--                               comes to.
--   src/tirtc/_lifecycle.py     Lifecycle: `_CloseCoordinator` (`begin`, `fail`, `succeed` and
--                               `require_open`). Each section under the condition's lock is a
--                               function; `wake` is one turn of the wait in `begin`. The system
--                               of threads is Lifecycle.System.
--   src/tirtc/_dispatch.py      Dispatch: `_Dispatcher` (`post`, `post_native_task`, `_drain_one`
--                               as `drain_begin` and `drain_end`, `barrier`, `close`, `discard`)
--                               and `_native_sink`. Dispatch.System adds the executor's queue and
--                               its workers.
--   src/tirtc/_util.py          Util.Retry: `_retry_in_use_result`; Util.Validate: `_integer`,
--                               `_stream_id`, `_channel_id`, `_nonempty_string`, `_duration_us` and
--                               `_duration_ms`; Util.Moments: `_datetime_ms` and the datetimes
--                               that are made of native counts.
--   _util, _runtime, _lifecycle Calls: `_check_code`, `_check_process` and `_retry_in_use` as the
--                               methods put them together. Calls.Closing is the chain from `begin`
--                               to `fail` or `succeed` that every method that closes has, with any
--                               body.
--   src/tirtc/_raw_dump.py      RawDump: `normalize_raw_dump_ids`, and RawDumpOptions of
--                               src/tirtc/_core.py; RawDump.Dump: `RawDump.stop` and `close`.
--   src/tirtc/_runtime.py       Runtime: the module's globals and the check of the process;
--                               Runtime.Options: the check of ClientOptions; Runtime.Leases and
--                               Runtime.Calls: `_acquire_rtc`, `_acquire_storage`, `_release`
--                               and `_upload_logs`. Runtime.Calls.System puts them in any order,
--                               with forks and the end of the interpreter.
--   src/tirtc/_core.py          Connection: the attempts to connect of a Connection, section by
--                               section (`_handle_event` of a state, `_managed_complete`,
--                               `_begin_connect`, `_finish_connect`, `_cancel_connect`, and the
--                               ends of `connect` and `disconnect`). Connection.System is the
--                               threads and events. Connection.Sends: the calls that send and
--                               subscribe.
--                               Outputs: `attach`, `detach`, `_detach_from_parent` and
--                               `_close_output` of an output, section by section, and
--                               Outputs.System the threads; Outputs.Frames: its events and the
--                               frames they carry, by the enumerations of src/tirtc/_values.py
--                               in Outputs.Formats. Tasks.Recording: RecordingTask; Tasks.Media:
--                               the removal of a media file. Clients: Client. Callbacks:
--                               `_rtc_callback_client`.
--   src/tirtc/storage/__init__.py  Storage.Values: the values decoded from native records;
--                               Storage.Requests: `_ListRequest`, with its threads in
--                               Storage.Requests.System; Storage.Cloud: CloudStorage, with its
--                               listings in Storage.Cloud.Lists; Storage.Replay: Replay, with
--                               what it owns in Storage.Replay.Owned; Tasks.Export: ExportTask;
--                               Clients: the opening calls of the second Client, whose clouds
--                               are in Clients.Clouds; Callbacks: `_callback_descends_from`.
--   _core, storage              Children: the loop in which a parent closes its children and keeps
--                               the first error.
-- A Client holds one lease of Runtime and creates Connections. Native code posts their events
-- through a sink to their dispatcher, a worker of the executor hands them to `_handle_event`,
-- and the calls of `connect` and `disconnect` wait for what it settles. An output is bound to one
-- Connection, whose set of outputs it enters and leaves. A client of storage opens a CloudStorage,
-- which creates Replays and ExportTasks; a Replay or a Connection starts RecordingTasks and raw
-- dumps. A parent that closes takes its children with it, which tell it when they are done. Every
-- object that can be closed has a coordinator of Lifecycle, and every failure is an error of Errors.
--
-- Prelude has the libraries' names and the lemmas on lists and numbers that the parts share, and
-- Objects the Python values that validators tell apart. Python's integers are `ℤ` over the native
-- numbers; dicts keyed by numbers are functions; the set of leases is a list by identity. A text
-- that the code builds is written out; a POSIX path has its normal form (Runtime.Paths).
--
-- Threads take turns at sections: a step is one section under a lock, so any interleaving of
-- sections is a sequence of steps. A call of Runtime is one step, since all of it but the check of
-- its arguments runs under the module's lock; a fork inside one is left out, since it does not take
-- the lock. A section of an output that takes its parent's lock too is two steps. In Tasks.Export the events that come in while a call
-- waits are given to the call as a list.
--
-- Bounds and fuel: `_retry_in_use_result` is given its timeout divided by the shortest delay, plus
-- two rounds, and the loop of `_close_handle` 1002 rounds, of 5 ms within 5 s. Both suffice where
-- `time.sleep` suspends for the time it is given and native calls do not turn the clock back. The
-- decimal numeral of a code has the code itself as its fuel.
-- The search of `_callback_descends_from` has four rounds for each object, since an object has at
-- most four links, and two more; that of `_rtc_callback_client` has one for each object and two
-- more. Both suffice where the objects are numbered below the given size. A floating-point fraction
-- is a multiple of the smallest positive one.
--
-- Native code, the clock and the file system are parameters (Runtime.Native, Util.Retry.Clock and
-- the records of native calls of each part), as are `__fspath__` of the callers' objects and the
-- time zones. What is relied on of them is named: IsClock for the clock, GivesHandles for the handle
-- that comes with a client that was created.
--
-- Not modelled: the constructors of outputs and their state property, the calls of a Connection
-- that record, dump or close it, and the constructors of the clients; `_connect_timeout_ms`,
-- `_buffer`, `_callable` and `_enum` of src/tirtc/_util.py; forks inside a call of Runtime; the
-- check of the process when the cause of an export report or the error of an output's event is
-- named; the outputs of src/tirtc/storage, which are a copy of those of src/tirtc/_core.py; the
-- value classes that only hold data; logging, warnings on unclosed objects, finalisers, the
-- threads' creation, and the report of exceptions from handlers, which are input and output only;
-- the version check on import of src/tirtc/_runtime.py; the examples, which only call the library.
pub mod Prelude
pub mod Errors
pub mod Objects
pub mod Util
pub mod Lifecycle
pub mod Dispatch
pub mod Runtime
pub mod Connection
pub mod RawDump
pub mod Calls
pub mod Storage
pub mod Tasks
pub mod Children
pub mod Clients
pub mod Callbacks
pub mod Outputs
