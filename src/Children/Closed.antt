-- ===== src/Children/Closed.antt =====
-- Where the loop returns, every child is closed.
use tirtc_client_python.Prelude.{
  ℕ, ◌≡◌, refl, Bool, true, false, Option, List, [], ◌∷◌, if◌then◌else◌,
}
use tirtc_client_python.Errors.Action.{Exception, Result, ok, err}
use tirtc_client_python.Children.{Children, keep_first, close_each}

module _ {N : Type 0} (children : Children N) where
  -- A change of the world that opens no child again.
  abbrev pub Stays : {A : Type 0} → (N → A × N) → Type 0
  Stays f =
      (c : ℕ) (n : N) → children.child_closed c n ≡ true → children.child_closed c (f n).1 ≡ true

  -- What a child's `close` does, as the classes of the children show of theirs.
  pub record Lawful : Type 0 where
    pub closes :
        (c : ℕ) (n : N)
        → (children.close_child c n).0 ≡ ok tt
        → children.child_closed c (children.close_child c n).1 ≡ true
    pub stays : (d : ℕ) → Stays (children.close_child d)

  abbrev pub AllClosed : List ℕ → N → Type 0
  AllClosed [] n = Unit {0}
  AllClosed (c ∷ rest) n = (children.child_closed c n ≡ true) × AllClosed rest n

  pub still_closed :
      {A : Type 0} (f : N → A × N) (cs : List ℕ) (n : N)
      → Stays f
      → AllClosed cs n
      → AllClosed cs (f n).1
  still_closed f [] n stays all = tt
  still_closed f (c ∷ rest) n stays (one, all) = (stays c n one, still_closed f rest n stays all)

  module _ (lawful : Lawful) where
    abbrev Looped :
        Result (Unit {0})
        → Bool
        → Option Exception
        → N
        → (Option Exception → Result (Option Exception) × N)
        → Result (Option Exception) × N
    Looped r closed first n k = elim r [
      | ok u ↦ k first
      | err e ↦ if closed then k (keep_first first e) else (err e, n)
    ]

    -- `P` holds of what the loop comes to where it holds of the rest.
    looped-cases :
        (P : Result (Option Exception) × N → Type 0) (r : Result (Unit {0})) (closed : Bool)
        (first : Option Exception) (n : N) (k : Option Exception → Result (Option Exception) × N)
        → ((f : Option Exception) → r ≡ ok tt → P (k f))
        → ((f : Option Exception) → closed ≡ true → P (k f))
        → ((e : Exception) → P (err e, n))
        → P (Looped r closed first n k)
    looped-cases P (ok tt) closed first n k good bad fatal = good first refl
    looped-cases P (err e) true first n k good bad fatal = bad (keep_first first e) refl
    looped-cases P (err e) false first n k good bad fatal = fatal e

    pub close_each-Stays :
        (cs : List ℕ) (first : Option Exception) → Stays (close_each children cs first)
    unfolding close_each
    close_each-Stays [] first c n h = h
    close_each-Stays (d ∷ rest) first c n h =
        let n' = (children.close_child d n).1 in
        let kept = lawful.stays d c n h in
        looped-cases (λ x. children.child_closed c x.1 ≡ true) (children.close_child d n).0
          (children.child_closed d n') first n' (λ f. close_each children rest f n')
          (λ f good. close_each-Stays rest f c n' kept) (λ f bad. close_each-Stays rest f c n' kept)
          (λ e. kept)

    abbrev pub AllIfReturned : List ℕ → Result (Option Exception) × N → Type 0
    AllIfReturned cs (ok o, n) = AllClosed cs n
    AllIfReturned cs (err e, n) = Unit {0}

    add_first :
        (c : ℕ) (rest : List ℕ) (x : Result (Option Exception) × N)
        → children.child_closed c x.1 ≡ true
        → AllIfReturned rest x
        → AllIfReturned (c ∷ rest) x
    add_first c rest (ok o, n) one all = (one, all)
    add_first c rest (err e, n) one all = tt

    pub close_each-AllClosed :
        (cs : List ℕ) (first : Option Exception) (n : N)
        → AllIfReturned cs (close_each children cs first n)
    unfolding close_each
    close_each-AllClosed [] first n = tt
    close_each-AllClosed (d ∷ rest) first n =
        let n' = (children.close_child d n).1 in
        looped-cases (AllIfReturned (d ∷ rest)) (children.close_child d n).0
          (children.child_closed d n') first n' (λ f. close_each children rest f n')
          (λ f good.
            add_first d rest (close_each children rest f n')
              (close_each-Stays rest f d n' (lawful.closes d n good))
              (close_each-AllClosed rest f n'))
          (λ f bad.
            add_first d rest (close_each children rest f n') (close_each-Stays rest f d n' bad)
              (close_each-AllClosed rest f n'))
          (λ e. tt)
