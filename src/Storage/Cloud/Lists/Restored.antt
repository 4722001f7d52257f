-- ===== src/Storage/Cloud/Lists/Restored.antt =====
-- A listing leaves no request behind it.
use tirtc_client_python.Prelude.{
  ℕ, ◌≡◌, refl, ap, ◌∙◌, Bool, true, false, not, Option, List, [], ◌∷◌, is_empty, if-cases, arith,
}
use tirtc_client_python.Prelude.Int.{ℤ}
use tirtc_client_python.Errors.{in_use_error, timeout_error}
use tirtc_client_python.Errors.Action.{
  sdk, Result, ok, err, Action, pure, lift, raise_if, ◌>>=◌, ◌>>◌,
}
use tirtc_client_python.Lifecycle.{require_open}
use tirtc_client_python.Util.Moments.{TimeoutArgument, timeout}
use tirtc_client_python.Calls.{
  Held, Call, outside, change, require_process, expect_zero, checked, retry_in_use,
}
use tirtc_client_python.Calls.Closing.{Closable, opened_if, free}
use tirtc_client_python.Calls.Effects.{
  Composes, Moves, self_of, object_of, bind-Moves, require_process-Moves, expect_zero-Moves,
  checked-Moves, retry_in_use-Moves, free-Moves,
}
use tirtc_client_python.Children.{without_id}
use tirtc_client_python.Storage.Cloud.{Cloud}
use tirtc_client_python.Storage.Cloud.Lists.{
  Listing, finally, add_request, discard_request, begin_list, cancel_request, wait_completed,
  rows_of, late, waited, await_request, started, run_list, listed, list_rows,
}

abbrev Same : Cloud → Cloud → Type 0
Same s t = t ≡ s

Same-composes : Composes Same
Same-composes = record { stay = λ s. refl; go_on = λ s t u h k. k ∙ h }

abbrev pub SameRequests : Cloud → Cloud → Type 0
SameRequests s t = t.requests ≡ s.requests

SameRequests-composes : Composes SameRequests
SameRequests-composes = record { stay = λ s. refl; go_on = λ s t u h k. k ∙ h }

module _ {N V : Type 0} (native : Listing N V) where
  abbrev Still : {A : Type 0} → Call Cloud N A → Type 0
  Still m = Moves self_of Same m

  chain :
      {A B : Type 0} (m : Call Cloud N A) (f : A → Call Cloud N B)
      → Still m
      → ((a : A) → Still (f a))
      → Still (m >>= f)
  chain = bind-Moves self_of Same Same-composes

  finally-Still :
      {A : Type 0} (m : Call Cloud N A) (end : Call Cloud N (Unit {0}))
      → Still m
      → Still end
      → Still (finally native m end)
  finally-Still m end h k s = chain end (λ _. lift (m s).0) k (λ _ t. refl) (m s).1 ∙ h s

  cancel_request-Still : Still (cancel_request native)
  unfolding cancel_request
  cancel_request-Still s =
      if-cases (λ (x : Result (Unit {0}) × Held Cloud N). x.1.self ≡ s.self)
        (native.completed s.world) {x = pure tt s} (λ _. refl)
        λ _. checked-Moves Same Same-composes native.base native.request_cancel s

  late-Still : (in_time : Bool) → Still (late native in_time)
  unfolding late wait_completed
  late-Still true = λ s. refl
  late-Still false =
      chain (cancel_request native) (λ _. wait_completed native) cancel_request-Still λ _ s. refl

  rows_of-Still : (in_time : Bool) (v : ℤ × List V) → Still (rows_of native in_time v)
  unfolding rows_of
  rows_of-Still in_time (code, values) =
      chain (raise_if (not in_time) (sdk timeout_error) >> expect_zero native.base code)
        (λ _. pure values)
        (chain (raise_if (not in_time) (sdk timeout_error)) (λ _. expect_zero native.base code)
          (λ s. refl) (λ _. expect_zero-Moves Same Same-composes native.base code))
        λ _ s. refl

  waited-Still : (in_time : Bool) → Still (waited native in_time)
  unfolding waited
  waited-Still in_time =
      chain (late native in_time >> outside native.request_result) (rows_of native in_time)
        (chain (late native in_time) (λ _. outside native.request_result) (late-Still in_time)
          (λ _ s. refl))
        (rows_of-Still in_time)

  run_list-Still : (deadline : Option ℤ) → Still (run_list native deadline)
  unfolding run_list started await_request
  run_list-Still deadline =
      chain (checked native.base native.list_start) (λ _. started native deadline)
        (checked-Moves Same Same-composes native.base native.list_start)
        λ _.
          finally-Still (await_request native deadline)
            (retry_in_use native.base native.close_request)
            (chain (outside (native.in_time deadline)) (waited native) (λ s. refl) waited-Still)
            (retry_in_use-Moves Same Same-composes native.base native.close_request)

  abbrev Run : ℕ → Option ℤ → Call Cloud N (List V)
  Run request deadline =
      finally native (run_list native deadline) (change (discard_request native request))

  -- With one request, or with none left.
  ended :
      (request : ℕ) (deadline : Option ℤ) (s : Held Cloud N)
      → (Run request deadline s).1.self ≡ discard_request native request s.self
  ended request deadline s = ap (discard_request native request) (run_list-Still deadline s)

  none_left :
      (request : ℕ) (cs : List ℕ)
      → not (is_empty cs) ≡ false
      → without_id request (request ∷ cs) ≡ cs
  none_left request [] h = ground arith
  none_left request (c ∷ cs) h = absurd (ground (arith, h))

  abbrev BeginListing : ℕ → Bool → Action (Closable Cloud N) (Unit {0})
  BeginListing request busy =
      free (raise_if busy (sdk in_use_error) >> change (add_request native request))

  begun-SameRequests :
      (request : ℕ) (deadline : Option ℤ) (busy : Bool) (s : Closable Cloud N)
      → not (is_empty s.object.self.requests) ≡ busy
      → SameRequests s.object.self
          ((BeginListing request busy >> free (Run request deadline)) s).1.object.self
  unfolding add_request discard_request
  begun-SameRequests request deadline true s h = refl
  begun-SameRequests request deadline false s h =
      ap (λ t. t.requests)
        (ended request deadline
          (record s.object { self = add_request native request s.object.self }))
      ∙ none_left request s.object.self.requests h

  listed-SameRequests :
      (request : ℕ) (deadline : Option ℤ)
      → Moves object_of SameRequests (listed native request deadline)
  unfolding listed begin_list
  listed-SameRequests request deadline s = go (require_open s.coordinator)
    where
      go :
          (r : Result (Unit {0}))
          → SameRequests s.object.self
              ((opened_if r (begin_list native request) >> free (Run request deadline))
                s).1.object.self
      go (ok u) = begun-SameRequests request deadline (not (is_empty s.object.self.requests)) s refl
      go (err e) = refl

  -- A listing leaves the set of the running requests as it was, whether it returns, times out, is
  -- refused since another request runs, or raises anywhere.
  pub list_rows-SameRequests :
      (request : ℕ) (limit : TimeoutArgument) (s : Closable Cloud N)
      → (list_rows native request limit s).1.object.self.requests ≡ s.object.self.requests
  unfolding list_rows
  list_rows-SameRequests request limit =
      bind-Moves object_of SameRequests SameRequests-composes
        (free (require_process native.base) >> lift (timeout limit "timeout"))
        (listed native request)
        (bind-Moves object_of SameRequests SameRequests-composes
          (free (require_process native.base)) (λ _. lift (timeout limit "timeout"))
          (free-Moves SameRequests SameRequests-composes (require_process native.base)
            (require_process-Moves SameRequests SameRequests-composes native.base))
          (λ _ s. refl))
        (listed-SameRequests request)
