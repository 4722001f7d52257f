-- ===== src/Children/Trace.antt =====
-- The loop that closes the children, against a description that has no kept error: close them in
-- order up to the first that fails and stays open, and look at what came out.
use tirtc_client_python.Prelude.{
  ℕ, ◌≡◌, refl, Bool, true, false, Option, none, some, List, [], ◌∷◌, if◌then◌else◌,
}
use tirtc_client_python.Errors.Action.{Exception, Result, ok, err}
use tirtc_client_python.Children.{Children, keep_first, close_each}

-- What closing one child came to: the error, if any, and whether the child is closed.
pub record ChildClose : Type 0 where
  pub error : Option Exception
  pub closed : Bool

abbrev pub error_of : {A : Type 0} → Result A → Option Exception
error_of (ok a) = none
error_of (err e) = some e

-- The first error of a list of attempts.
abbrev pub first_error : List ChildClose → Option Exception
first_error [] = none
first_error (a ∷ rest) = elim a.error [ none ↦ first_error rest | some e ↦ some e ]

abbrev pub is_fatal : Option Exception → Bool → Bool
is_fatal none closed = false
is_fatal (some e) true = false
is_fatal (some e) false = true

-- The error of the attempt that ended the list, if one did.
abbrev pub fatal_error : List ChildClose → Option Exception
fatal_error [] = none
fatal_error (a ∷ rest) = if is_fatal a.error a.closed then a.error else fatal_error rest

abbrev pub judged : List ChildClose → Result (Option Exception)
judged attempts = elim (fatal_error attempts) [ none ↦ ok (first_error attempts) | some e ↦ err e ]

module _ {N : Type 0} (children : Children N) where
  unfoldable pub trace : List ℕ → N → List ChildClose × N
  trace [] n = ([], n)
  trace (c ∷ rest) n =
      let (r, n') = children.close_child c n in
      let (more, last) = trace rest n' in
      let a : ChildClose = record { error = error_of r; closed = children.child_closed c n' } in
      if is_fatal a.error a.closed then (a ∷ [], n') else (a ∷ more, last)

  -- A kept error stays in front.
  abbrev judged_after : Option Exception → List ChildClose → Result (Option Exception)
  judged_after first attempts = elim (fatal_error attempts) [
    | none ↦ ok (elim first [ none ↦ first_error attempts | some e ↦ some e ])
    | some e ↦ err e
  ]

  abbrev looped :
      Result (Unit {0})
      → Bool
      → Option Exception
      → N
      → (Option Exception → Result (Option Exception) × N)
      → Result (Option Exception) × N
  looped r closed first n k = elim r [
    | ok u ↦ k first
    | err e ↦ if closed then k (keep_first first e) else (err e, n)
  ]

  abbrev traced : Option Exception → Bool → N → List ChildClose × N → List ChildClose × N
  traced e closed n x =
      let a : ChildClose = record { error = e; closed = closed } in
      if is_fatal e closed then (a ∷ [], n) else (a ∷ x.0, x.1)

  step :
      (r : Result (Unit {0})) (closed : Bool) (first : Option Exception) (n : N)
      (x : List ChildClose × N) (k : Option Exception → Result (Option Exception) × N)
      → ((f : Option Exception) → k f ≡ (judged_after f x.0, x.1))
      → looped r closed first n k ≡ (
        judged_after first (traced (error_of r) closed n x).0,
        (traced (error_of r) closed n x).1,
      )
  step (ok u) closed none n x k h = h none
  step (ok u) closed (some e) n x k h = h (some e)
  step (err e) true none n x k h = h (some e)
  step (err e) true (some f) n x k h = h (some f)
  step (err e) false first n x k h = refl

  close_each-judged_after :
      (cs : List ℕ) (first : Option Exception) (n : N)
      → close_each children cs first n ≡ (judged_after first (trace cs n).0, (trace cs n).1)
  unfolding close_each trace
  close_each-judged_after [] none n = refl
  close_each-judged_after [] (some e) n = refl
  close_each-judged_after (c ∷ rest) first n =
      step (children.close_child c n).0 (children.child_closed c (children.close_child c n).1) first
        (children.close_child c n).1 (trace rest (children.close_child c n).1)
        (λ f. close_each children rest f (children.close_child c n).1)
        (λ f. close_each-judged_after rest f (children.close_child c n).1)

  -- The loop gives what the attempts come to: the error of the child that failed and stayed open,
  -- or else the first error of all; and it leaves the world that the attempts leave.
  pub close_each-judged :
      (cs : List ℕ) (n : N)
      → close_each children cs none n ≡ (judged (trace cs n).0, (trace cs n).1)
  close_each-judged cs n = close_each-judged_after cs none n
