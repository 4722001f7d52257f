-- ===== src/Outputs/Reasons.antt =====
-- The reasons for which a parent's set holds an output, and what attaching and detaching do to them.
use tirtc_client_python.Prelude.{
  ℕ, suc, ◌≡◌, ◌≢◌, ◌⊎◌, inl, inr, refl, ap, sym, subst, ◌∙◌, Bool, true, false, Option, none, some,
  ◌==◌, is_some, if◌then◌else◌, Bool-cases, arith,
}
use tirtc_client_python.Errors.Action.{Exception, Result, ok, err}
use tirtc_client_python.Lifecycle.{Status, closing as closing_}
use tirtc_client_python.Outputs.{
  Output, hold, parent_drops, bind, attach_end, begin_detach, Detaching, leaves, nothing, raises,
}
use tirtc_client_python.Outputs.System.{Closer, no_close, body, unbound, System}
use tirtc_client_python.Outputs.Sections.{is_open, Attached, refused, taken_in, Left, stays, goes}

-- Why a parent's set holds the output: it is bound to the parent, a
-- thread is attaching it there, a detach or a close from it is on
-- its way, or a thread has still to tell the parent.
pub data Reason (s : System) (p : ℕ) : Type 0 where
  is_bound : s.output.bound ≡ some p → Reason s p
  is_attaching : s.attaching ≡ some p → Reason s p
  is_leaving : s.leaving ≡ some p → Reason s p
  is_telling : (n : ℕ) → s.telling p ≡ suc n → Reason s p
  close_is_telling : (g : ℕ) → s.closer ≡ unbound g (some p) → Reason s p

abbrev pub LeaverOk : Option ℕ → Option ℕ → Bool → Type 0
LeaverOk none bound opened = Unit {0}
LeaverOk (some p) bound opened = (bound ≡ some p) ⊎ ((bound ≡ none) × (opened ≡ false))

abbrev pub AttacherOk : Option ℕ → Option ℕ → Bool → Type 0
AttacherOk none bound opened = Unit {0}
AttacherOk (some p) bound opened = (bound ≡ none) × (opened ≡ true)

abbrev pub CloserOk : Closer → Option ℕ → Status → Type 0
CloserOk no_close bound status = Unit {0}
CloserOk (body g b) bound status = (status ≡ closing_) × ((bound ≡ none) ⊎ (bound ≡ b))
CloserOk (unbound g b) bound status = (status ≡ closing_) × (bound ≡ none)

pub record IsKept (s : System) : Type 0 where
  pub detaching : s.output.detaching ≡ is_some s.leaving
  pub attacher : AttacherOk s.attaching s.output.bound (is_open s.output.close.status)
  pub leaver : LeaverOk s.leaving s.output.bound (is_open s.output.close.status)
  pub closer : CloserOk s.closer s.output.bound s.output.close.status
  pub held : (p : ℕ) → (s.output.held p ≡ false) ⊎ Reason s p

same_number : (p q : ℕ) → (q == p) ≡ true → q ≡ p
same_number p q h = ground (arith, h)

pub none_is_not : (b : Option ℕ) (p : ℕ) → b ≡ none → b ≢ some p
none_is_not b p h k = ground (arith, h, k)

leaves_same : (q p : ℕ) → leaves q ≡ leaves p → q ≡ p
leaves_same q p h = ap number h
  where
    number : Detaching → ℕ
    number (leaves r) = r
    number nothing = q
    number (raises e) = q

-- The set of a parent after a step, from the reasons before it.
pub held_after :
    (s t : System) (q : ℕ)
    → (t.output.held q ≡ false) ⊎ (t.output.held q ≡ s.output.held q)
    → (s.output.held q ≡ false) ⊎ Reason s q
    → (s.attaching ≡ some q → (t.output.held q ≡ false) ⊎ Reason t q)
    → (s.output.bound ≡ some q → Reason t q)
    → (s.leaving ≡ some q → Reason t q)
    → ((n : ℕ) → s.telling q ≡ suc n → (t.output.held q ≡ false) ⊎ Reason t q)
    → ((g : ℕ) → s.closer ≡ unbound g (some q) → (t.output.held q ≡ false) ⊎ Reason t q)
    → (t.output.held q ≡ false) ⊎ Reason t q
held_after s t q (inl free) before a b l n c = inl free
held_after s t q (inr same) (inl free) a b l n c = inl (same ∙ free)
held_after s t q (inr same) (inr (is_bound h)) a b l n c = inr (b h)
held_after s t q (inr same) (inr (is_attaching h)) a b l n c = a h
held_after s t q (inr same) (inr (is_leaving h)) a b l n c = inr (l h)
held_after s t q (inr same) (inr (is_telling k h)) a b l n c = n k h
held_after s t q (inr same) (inr (close_is_telling g h)) a b l n c = c g h

-- A step that only drops the output from the set of `p`, or does nothing to the sets.
pub dropped :
    (b : Bool) (p q : ℕ)
    → ((if q == p then false else b) ≡ false) ⊎ ((if q == p then false else b) ≡ b)
dropped b p q = elim (Bool-cases (q == p)) [
  | inl here ↦ inl (ground (arith, here))
  | inr other ↦ inr (ground (arith, other))
]

pub Attached-IsKept :
    (s : System) (p : ℕ) (x : Result (Unit {0}) × Output)
    → Attached p s.output x
    → x.0 ≡ ok tt
    → s.attaching ≡ none
    → IsKept s
    → IsKept (record s { output = x.1; attaching = some p })
Attached-IsKept s p x (refused e) went alone h = absurd (ground (arith, went))
Attached-IsKept s p x (taken_in free opened) went alone h = record {
  detaching = h.detaching;
  attacher = (free, opened);
  leaver = h.leaver;
  closer = h.closer;
  held = λ q. elim (Bool-cases (q == p)) [
    | inl here ↦ inr (is_attaching (ap some (sym (same_number p q here))))
    | inr other ↦
        held_after s (record s { output = hold p true s.output; attaching = some p }) q
          (inr (ground (arith, other))) (h.held q) (λ k. absurd (none_is_not s.attaching q alone k))
          is_bound is_leaving (λ n k. inr (is_telling n k)) (λ g k. inr (close_is_telling g k))
  ];
}

pub refused-IsKept :
    (s : System) (p : ℕ) (x : Result (Unit {0}) × Output) (e : Exception)
    → Attached p s.output x
    → x.0 ≡ err e
    → IsKept s
    → IsKept (record s { output = x.1 })
refused-IsKept s p x e (refused y) went h = h
refused-IsKept s p x e (taken_in free opened) went h = absurd (ground (arith, went))

pub same_parent : (q p : ℕ) → some q ≡ some p → q ≡ p
same_parent q p h = ground (arith, h)

pub attach_end-IsKept :
    (s : System) (p : ℕ) (native : Result (Unit {0}))
    → s.attaching ≡ some p
    → IsKept s
    → IsKept (record s { output = (attach_end p native s.output).1; attaching = none })
unfolding attach_end bind parent_drops
attach_end-IsKept s p (err e) mine h = record {
  detaching = h.detaching;
  attacher = tt;
  leaver = h.leaver;
  closer = h.closer;
  held = λ q.
      held_after s (record s { output = parent_drops p s.output; attaching = none }) q
        (dropped (s.output.held q) p q) (h.held q)
        (λ k. inl (gone q (same_parent q p (sym k ∙ mine)))) is_bound is_leaving
        (λ n k. inr (is_telling n k)) (λ g k. inr (close_is_telling g k));
}
  where
    gone : (q : ℕ) → q ≡ p → (if q == p then false else s.output.held q) ≡ false
    gone q here = ground (arith, here)
attach_end-IsKept s p (ok u) mine h = record {
  detaching = h.detaching;
  attacher = tt;
  leaver = still_leaving s.leaving h.leaver;
  closer = not_closing s.closer h.closer;
  held = λ q.
      held_after s (record s { output = bind p s.output; attaching = none }) q (inr refl) (h.held q)
        (λ k. inr (is_bound (sym mine ∙ k))) (λ k. absurd (none_is_not s.output.bound q here.0 k))
        is_leaving (λ n k. inr (is_telling n k)) (λ g k. inr (close_is_telling g k));
}
  where
    here : AttacherOk (some p) s.output.bound (is_open s.output.close.status)
    here = subst (λ a. AttacherOk a s.output.bound (is_open s.output.close.status)) mine h.attacher

    still_leaving :
        (l : Option ℕ)
        → LeaverOk l s.output.bound (is_open s.output.close.status)
        → LeaverOk l (some p) (is_open s.output.close.status)
    still_leaving none k = tt
    still_leaving (some q) (inl k) = absurd (none_is_not s.output.bound q here.0 k)
    still_leaving (some q) (inr (k, shut)) = absurd (ground (arith, here.1, shut))

    not_closing :
        (c : Closer)
        → CloserOk c s.output.bound s.output.close.status
        → CloserOk c (some p) s.output.close.status
    not_closing no_close k = tt
    not_closing (body g b) (shut, k) = absurd (ground (arith, here.1, ap is_open shut))
    not_closing (unbound g b) (shut, k) = absurd (ground (arith, here.1, ap is_open shut))

pub Left-IsKept :
    (s : System) (p : ℕ) (x : Detaching × Output)
    → Left s.output x
    → x.0 ≡ leaves p
    → IsKept s
    → IsKept (record s { output = x.1; leaving = some p })
unfolding begin_detach
Left-IsKept s p x (stays d never) went h = absurd (never p went)
Left-IsKept s p x (goes q same quiet) went h = record {
  detaching = refl;
  leaver = inl (same ∙ ap some (leaves_same q p went));
  attacher = h.attacher;
  closer = h.closer;
  held = λ r.
      held_after s (record s { output = begin_detach s.output; leaving = some p }) r (inr refl)
        (h.held r) (λ k. inr (is_attaching k)) is_bound
        (λ k. absurd (ground (arith, k, quiet, h.detaching))) (λ n k. inr (is_telling n k))
        (λ g k. inr (close_is_telling g k));
}

pub unbound_leaver :
    (l : Option ℕ) (b : Option ℕ) (opened : Bool)
    → LeaverOk l b opened
    → opened ≡ false
    → LeaverOk l none opened
unbound_leaver none b opened h shut = tt
unbound_leaver (some p) b opened h shut = inr (refl, shut)

pub unbound_closer :
    (c : Closer) (b : Option ℕ) (status : Status) → CloserOk c b status → CloserOk c none status
unbound_closer no_close b status h = tt
unbound_closer (body g d) b status (shut, h) = (shut, inl refl)
unbound_closer (unbound g d) b status (shut, h) = (shut, refl)

pub unbound_attacher :
    (a b : Option ℕ) (opened : Bool) → AttacherOk a b opened → AttacherOk a none opened
unbound_attacher none b opened h = tt
unbound_attacher (some p) b opened (free, h) = (refl, h)

pub nobody_attaches : (a b : Option ℕ) (opened : Bool) → a ≡ none → AttacherOk a b opened
nobody_attaches a b opened free = subst (λ x. AttacherOk x b opened) (sym free) tt
