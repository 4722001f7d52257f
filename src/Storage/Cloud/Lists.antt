-- ===== src/Storage/Cloud/Lists.antt =====
-- src/tirtc/storage/__init__.py: the listing calls of a CloudStorage. A request that is waited for may
-- complete in time, or not; a date is a number of days, and text in the form of ISO 8601.
mod Restored
mod Tests
use tirtc_client_python.Prelude.{
  ℕ, String, Bool, true, false, not, Option, none, some, List, [], ◌∷◌, is_empty, if◌then◌else◌,
}
use tirtc_client_python.Prelude.Text.{is_empty_text}
use tirtc_client_python.Prelude.Int.{ℤ, ltb_ℤ, leb_ℤ}
use tirtc_client_python.Errors.{in_use_error, timeout_error}
use tirtc_client_python.Errors.Action.{
  Exception, sdk, builtin, type_error, value_error, Result, ok, err, Action, pure, lift, raise,
  raise_if, ◌>>=◌, ◌>>◌,
}
use tirtc_client_python.Util.Moments.{TimeArgument, datetime_ms, TimeoutArgument, timeout}
use tirtc_client_python.Calls.{
  Sdk, Held, Call, outside, change, checks, caught, require_process, expect_zero, checked,
  checked_value, retry_in_use,
}
use tirtc_client_python.Calls.Closing.{Closable, opened, free}
use tirtc_client_python.Children.{without_id}
use tirtc_client_python.Storage.Values.{each, RecordingRange, range_of}
use tirtc_client_python.Storage.Cloud.{Cloud}

-- What a listing calls outside it, for rows of type `V`: `in_time` is whether the request completes
-- before the deadline, `completed` whether it has, and `until_completed` waits for it.
pub record Listing (N V : Type 0) : Type 0 where
  pub base : Sdk N
  pub list_start : N → ℤ × N
  pub in_time : Option ℤ → N → Bool × N
  pub completed : N → Bool
  pub request_cancel : N → ℤ × N
  pub until_completed : N → N
  pub request_result : N → (ℤ × List V) × N
  pub close_request : N → ℤ × N

module _ {N V : Type 0} (native : Listing N V) where
  -- `try: ... finally: ...`, where what the end raises is raised in place of the rest.
  abbrev pub finally : {A : Type 0} → Call Cloud N A → Call Cloud N (Unit {0}) → Call Cloud N A
  finally m end s = let (r, t) = m s in (end >> lift r) t

  add_request : ℕ → Cloud → Cloud
  add_request request t = record t { requests = request ∷ t.requests }

  discard_request : ℕ → Cloud → Cloud
  discard_request request t = record t { requests = without_id request t.requests }

  -- The section of `_list` that makes sure that there is one request.
  begin_list : ℕ → Call Cloud N (Unit {0})
  unfolding in_use_error add_request
  begin_list request =
      checks (λ t. not (is_empty t.requests)) (sdk in_use_error) >> change (add_request request)

  -- `state.cancel()` by the thread that lists, with nobody else there to cancel.
  cancel_request : Call Cloud N (Unit {0})
  unfolding checked
  cancel_request s =
      if native.completed s.world then pure tt s else checked native.base native.request_cancel s

  wait_completed : Call Cloud N (Unit {0})
  wait_completed s = (ok tt, record s { world = native.until_completed s.world })

  rows_of : Bool → ℤ × List V → Call Cloud N (List V)
  unfolding timeout_error expect_zero
  rows_of in_time (code, values) =
      raise_if (not in_time) (sdk timeout_error) >> expect_zero native.base code >> pure values

  late : Bool → Call Cloud N (Unit {0})
  unfolding cancel_request wait_completed
  late true = pure tt
  late false = cancel_request >> wait_completed

  waited : Bool → Call Cloud N (List V)
  unfolding late rows_of
  waited in_time = late in_time >> outside native.request_result >>= rows_of in_time

  await_request : Option ℤ → Call Cloud N (List V)
  unfolding waited
  await_request deadline = outside (native.in_time deadline) >>= waited

  -- A request that was started is destroyed whatever happens.
  started : Option ℤ → Call Cloud N (List V)
  unfolding await_request retry_in_use
  started deadline =
      finally (await_request deadline) (retry_in_use native.base native.close_request)

  run_list : Option ℤ → Call Cloud N (List V)
  unfolding checked started
  run_list deadline = checked native.base native.list_start >> started deadline

  listed : ℕ → Option ℤ → Action (Closable Cloud N) (List V)
  unfolding begin_list run_list discard_request
  listed request deadline =
      opened (begin_list request)
      >> free (finally (run_list deadline) (change (discard_request request)))

  -- `_list`, where `request` is the new object.
  unfoldable pub list_rows : ℕ → TimeoutArgument → Action (Closable Cloud N) (List V)
  unfolding require_process timeout listed
  list_rows request limit =
      free (require_process native.base) >> lift (timeout limit "timeout") >>= listed request

module _ {N : Type 0} (native : Sdk N) (recordings : ℤ → ℤ → Listing N (ℤ × ℤ)) where
  recordings_between : ℕ → TimeoutArgument → ℤ → ℤ → Action (Closable Cloud N) (List RecordingRange)
  unfolding list_rows range_of
  recordings_between request limit start end =
      raise_if (leb_ℤ end start) (builtin value_error "start_time must be before end_time")
      >> list_rows (recordings start end) request limit
      >>= λ rows. lift (each range_of rows)

  -- `list_recordings`
  unfoldable pub list_recordings :
      ℕ
      → TimeArgument
      → TimeArgument
      → TimeoutArgument
      → Action (Closable Cloud N) (List RecordingRange)
  unfolding require_process datetime_ms recordings_between
  list_recordings request start_time end_time limit =
      free (require_process native) >> lift (datetime_ms start_time "start_time") >>= λ start.
      lift (datetime_ms end_time "end_time") >>= λ end. recordings_between request limit start end

-- What is handed over for a date and for a time zone.
pub data DateArgument : Type 0 where
  no_date : DateArgument
  date : ℤ → DateArgument

pub data ZoneArgument : Type 0 where
  no_zone : ZoneArgument
  zone_info : String → ZoneArgument
  zone_name : String → ZoneArgument

date_given : DateArgument → String → Result ℤ
date_given no_date message = err (builtin type_error message)
date_given (date d) message = ok d

-- `zone_known` is whether `ZoneInfo` finds the name.
zone_key : (String → Bool) → ZoneArgument → Result String
zone_key zone_known no_zone = err (builtin type_error "timezone must be str or ZoneInfo")
zone_key zone_known (zone_info key) = ok key
zone_key zone_known (zone_name name) =
    if is_empty_text name
    then err (builtin value_error "timezone must not be empty")
    else if zone_known name
    then ok name
    else err (builtin value_error "unknown timezone")

module _ {N : Type 0} (native : Sdk N) (zone_known : String → Bool)
    (days : ℤ → ℤ → String → Listing N (String × Bool)) (from_isoformat : String → Result ℤ) where
  day_of : String × Bool → Result (ℤ × Bool)
  day_of (day, present) = elim (from_isoformat day) [ ok d ↦ ok (d, present) | err e ↦ err e ]

  days_in : ℕ → TimeoutArgument → ℤ → ℤ → String → Action (Closable Cloud N) (List (ℤ × Bool))
  unfolding list_rows day_of
  days_in request limit start end zone =
      list_rows (days start end zone) request limit >>= λ rows. lift (each day_of rows)

  -- `list_recording_days`
  unfoldable pub list_recording_days :
      ℕ
      → DateArgument
      → DateArgument
      → ZoneArgument
      → TimeoutArgument
      → Action (Closable Cloud N) (List (ℤ × Bool))
  unfolding require_process date_given zone_key days_in
  list_recording_days request start_date end_date timezone limit =
      free (require_process native)
      >> lift (date_given start_date "start_date must be datetime.date")
      >>= λ start. lift (date_given end_date "end_date must be datetime.date") >>= λ end.
          raise_if (ltb_ℤ end start) (builtin value_error "start_date must not be after end_date")
          >> lift (zone_key zone_known timezone)
          >>= days_in request limit start end
