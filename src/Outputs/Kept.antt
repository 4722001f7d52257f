-- ===== src/Outputs/Kept.antt =====
-- Closing, and any sequence of sections: a parent's set holds an output only while there is a reason.
use tirtc_client_python.Prelude.{
  ℕ, ◌≡◌, ◌≢◌, ◌⊎◌, inl, inr, refl, ap, sym, subst, ◌∙◌, Bool, true, false, Option, none, some,
  ◌==◌, is_some, if◌then◌else◌, arith,
}
use tirtc_client_python.Lifecycle.{
  Status, closing as closing_, Begun, Coordinator, new, own, fail, succeed,
}
use tirtc_client_python.Outputs.{
  Output, parent_drops, close_detached, close_fails, close_unbinds, close_succeeds,
}
use tirtc_client_python.Outputs.System.{
  Closer, no_close, body, unbound, System, fresh, Step, attaches, attach_refused, attach_ends,
  detaches, parent_detaches, leaves_parent, tells, closes, close_joins, wakes, body_detaches,
  body_raises, body_returns, close_tells, close_ends, Reach, start, next,
}
use tirtc_client_python.Outputs.Sections.{
  is_open, attach_begin-Attached, detach_begin-Left, parent_detach_begin-Left, CloseBegun, joins,
  owns, close_begin_output-CloseBegun,
}
use tirtc_client_python.Outputs.Reasons.{
  Reason, is_bound, is_leaving, is_telling, close_is_telling, LeaverOk, CloserOk, IsKept,
  held_after, dropped, AttacherOk, is_attaching, refused-IsKept, attach_end-IsKept,
  unbound_attacher, nobody_attaches, Attached-IsKept, Left-IsKept, unbound_leaver, none_is_not,
}
use tirtc_client_python.Outputs.Held.{leaves_parent-IsKept, tells-IsKept}
use tirtc_client_python.Lifecycle.Invariant.{wake-status}

-- A step that changes nothing but the coordinator, whose status it keeps.
same_status-IsKept :
    (s : System) (c : Coordinator)
    → c.status ≡ s.output.close.status
    → IsKept s
    → IsKept (record s { output = record s.output { close = c } })
same_status-IsKept s c same h = record {
  detaching = h.detaching;
  attacher = subst (λ x. AttacherOk s.attaching s.output.bound (is_open x)) (sym same) h.attacher;
  leaver = subst (λ x. LeaverOk s.leaving s.output.bound (is_open x)) (sym same) h.leaver;
  closer = subst (λ x. CloserOk s.closer s.output.bound x) (sym same) h.closer;
  held = λ q.
      held_after s (record s { output = record s.output { close = c } }) q (inr refl) (h.held q)
        (λ k. inr (is_attaching k)) is_bound is_leaving (λ n k. inr (is_telling n k))
        (λ g k. inr (close_is_telling g k));
}

no_leaver : (l : Option ℕ) → is_some l ≡ false → l ≡ none
no_leaver none h = refl
no_leaver (some p) h = absurd (ground (arith, h))

closer_rests :
    (c : Closer) (b : Option ℕ) (status : Status)
    → CloserOk c b status
    → status ≢ closing_
    → (g p : ℕ) → c ≢ unbound g (some p)
closer_rests no_close b status h other g p k = ground (arith, k)
closer_rests (body g' d) b status (busy, h) other g p k = other busy
closer_rests (unbound g' d) b status (busy, h) other g p k = other busy

joins-IsKept :
    (s : System) (x : Begun × Output)
    → CloseBegun s.output x
    → ((g : ℕ) → x.0 ≢ own g)
    → IsKept s
    → IsKept (record s { output = x.1 })
joins-IsKept s x (joins b c never same) other h = same_status-IsKept s c same h
joins-IsKept s x (owns g c busy rested quiet) other h = absurd (other g refl)

closes-IsKept :
    (s : System) (g : ℕ) (x : Begun × Output)
    → CloseBegun s.output x
    → x.0 ≡ own g
    → s.attaching ≡ none
    → IsKept s
    → IsKept (record s { output = x.1; closer = body g s.output.bound })
closes-IsKept s g x (joins b c never same) mine alone h = absurd (never g mine)
closes-IsKept s g x (owns g' c busy rested quiet) mine alone h = record {
  detaching = h.detaching;
  attacher = nobody_attaches s.attaching s.output.bound (is_open c.status) alone;
  leaver =
      subst (λ l. LeaverOk l s.output.bound (is_open c.status))
        (sym (no_leaver s.leaving (sym h.detaching ∙ quiet))) tt;
  closer = (busy, inr refl);
  held = λ q.
      held_after s
        (record s { output = record s.output { close = c }; closer = body g s.output.bound }) q
        (inr refl) (h.held q) (λ k. inr (is_attaching k)) is_bound is_leaving
        (λ n k. inr (is_telling n k))
        (λ g'' k.
          absurd
            (closer_rests s.closer s.output.bound s.output.close.status h.closer rested g'' q k));
}

shut_leaver :
    (l : Option ℕ) (b : Option ℕ) (opened now : Bool)
    → LeaverOk l b opened
    → now ≡ false
    → LeaverOk l b now
shut_leaver none b opened now h shut = tt
shut_leaver (some p) b opened now (inl h) shut = inl h
shut_leaver (some p) b opened now (inr (h, k)) shut = inr (h, shut)

-- The end of a close, by an error or with nothing left to tell.
ends-IsKept :
    (s : System) (c : Coordinator)
    → is_open c.status ≡ false
    → s.attaching ≡ none
    → ((g p : ℕ) → s.closer ≢ unbound g (some p))
    → IsKept s
    → IsKept (record s { output = record s.output { close = c }; closer = no_close })
ends-IsKept s c shut alone told h = record {
  detaching = h.detaching;
  attacher = nobody_attaches s.attaching s.output.bound (is_open c.status) alone;
  leaver =
      shut_leaver s.leaving s.output.bound (is_open s.output.close.status) (is_open c.status)
        h.leaver shut;
  closer = tt;
  held = λ q.
      held_after s (record s { output = record s.output { close = c }; closer = no_close }) q
        (inr refl) (h.held q) (λ k. inr (is_attaching k)) is_bound is_leaving
        (λ n k. inr (is_telling n k)) (λ g k. absurd (told g q k));
}

body_is_not :
    {c : Closer} (g : ℕ) (bound : Option ℕ)
    → c ≡ body g bound
    → (g' p : ℕ) → c ≢ unbound g' (some p)
body_is_not g bound at g' p k = ground (arith, at, k)

told_is_not : {c : Closer} (g : ℕ) → c ≡ unbound g none → (g' p : ℕ) → c ≢ unbound g' (some p)
told_is_not g at g' p k = ground (arith, at, k)

body_parent : {b : Option ℕ} (d : Option ℕ) (p : ℕ) → (b ≡ none) ⊎ (b ≡ d) → b ≡ some p → d ≡ some p
body_parent {b} d p (inl h) k = absurd (none_is_not b p h k)
body_parent d p (inr h) k = sym h ∙ k

returns-IsKept :
    (s : System) (g : ℕ) (bound : Option ℕ)
    → s.closer ≡ body g bound
    → IsKept s
    → IsKept (record s { output = close_unbinds s.output; closer = unbound g bound })
unfolding close_unbinds
returns-IsKept s g bound at h = record {
  detaching = h.detaching;
  attacher = unbound_attacher s.attaching s.output.bound (is_open s.output.close.status) h.attacher;
  leaver =
      unbound_leaver s.leaving s.output.bound (is_open s.output.close.status) h.leaver
        (ap is_open here.0);
  closer = (here.0, refl);
  held = λ q.
      held_after s (record s { output = close_unbinds s.output; closer = unbound g bound }) q
        (inr refl) (h.held q) (λ k. inr (is_attaching k))
        (λ k. close_is_telling g (ap (unbound g) (body_parent bound q here.1 k))) is_leaving
        (λ n k. inr (is_telling n k)) (λ g' k. absurd (body_is_not g bound at g' q k));
}
  where
    here : CloserOk (body g bound) s.output.bound s.output.close.status
    here = subst (λ c. CloserOk c s.output.bound s.output.close.status) at h.closer

unbound_parent :
    {c : Closer} (g p : ℕ)
    → c ≡ unbound g (some p)
    → (g' q : ℕ) → c ≡ unbound g' (some q)
    → (q == p) ≡ true
unbound_parent g p at g' q k = ground (arith, at, k)

close_tells-IsKept :
    (s : System) (g p : ℕ)
    → s.closer ≡ unbound g (some p)
    → IsKept s
    → IsKept (record s { output = parent_drops p s.output; closer = unbound g none })
unfolding parent_drops
close_tells-IsKept s g p at h = record {
  detaching = h.detaching;
  attacher = h.attacher;
  leaver = h.leaver;
  closer = subst (λ c. CloserOk c s.output.bound s.output.close.status) at h.closer;
  held = λ q.
      held_after s (record s { output = parent_drops p s.output; closer = unbound g none }) q
        (dropped (s.output.held q) p q) (h.held q) (λ k. inr (is_attaching k)) is_bound is_leaving
        (λ n k. inr (is_telling n k)) (λ g' k. inl (gone q (unbound_parent g p at g' q k)));
}
  where
    gone : (q : ℕ) → (q == p) ≡ true → (if q == p then false else s.output.held q) ≡ false
    gone q here = ground (arith, here)

step-IsKept : {s t : System} → Step s t → IsKept s → IsKept t
unfolding close_detached close_fails fail close_succeeds succeed
step-IsKept {s} (attaches p taken alone went) h =
    Attached-IsKept s p _ (attach_begin-Attached p taken s.output) went alone h
step-IsKept {s} (attach_refused p taken e alone went) h =
    refused-IsKept s p _ e (attach_begin-Attached p taken s.output) went h
step-IsKept {s} (attach_ends p native mine) h = attach_end-IsKept s p native mine h
step-IsKept {s} (detaches p e blocking native alone went) h =
    Left-IsKept s p _ (detach_begin-Left e blocking native s.output) went h
step-IsKept {s} (parent_detaches p q blocking native alone went) h =
    Left-IsKept s p _ (parent_detach_begin-Left q blocking native s.output) went h
step-IsKept {s} (leaves_parent p alone left) h = leaves_parent-IsKept s p left h
step-IsKept {s} (tells p n owed) h = tells-IsKept s p h
step-IsKept {s} (closes g blocking alone mine) h =
    closes-IsKept s g _ (close_begin_output-CloseBegun blocking s.output) mine alone h
step-IsKept {s} (close_joins blocking alone other) h =
    joins-IsKept s _ (close_begin_output-CloseBegun blocking s.output) other h
step-IsKept {s} (wakes g c r alone woken) h =
    same_status-IsKept s c (wake-status s.output.close c g r woken) h
step-IsKept {s} (body_detaches g bound at due) h = record {
  detaching = h.detaching;
  attacher = h.attacher;
  leaver = h.leaver;
  closer = h.closer;
  held = λ q.
      held_after s (record s { output = close_detached s.output }) q (inr refl) (h.held q)
        (λ k. inr (is_attaching k)) is_bound is_leaving (λ n k. inr (is_telling n k))
        (λ g' k. inr (close_is_telling g' k));
}
step-IsKept {s} (body_raises g bound e alone at) h =
    ends-IsKept s (fail s.output.close g e) refl alone (body_is_not g bound at) h
step-IsKept {s} (body_returns g bound alone at) h = returns-IsKept s g bound at h
step-IsKept {s} (close_tells g p at) h = close_tells-IsKept s g p at h
step-IsKept {s} (close_ends g alone at) h =
    ends-IsKept s (succeed s.output.close g none) refl alone (told_is_not g at) h

fresh-IsKept : IsKept fresh
unfolding new
fresh-IsKept = record {
  detaching = refl;
  attacher = tt;
  leaver = tt;
  closer = tt;
  held = λ p. inl refl;
}

reach-IsKept : {s : System} → Reach s → IsKept s
reach-IsKept start = fresh-IsKept
reach-IsKept (next r step) = step-IsKept step (reach-IsKept r)

-- However the sections of `attach`, `detach`, `_detach_from_parent` and `_close_output` and the
-- parents' own sections interleave, a parent's `_outputs` holds the output only while the output is
-- bound to this parent, a thread inside `attach` is attaching it there, a thread that detaches it
-- from this parent is between its two sections, or a thread that has detached or closed it has still
-- to tell this parent.
pub not_held_in_vain : (s : System) → Reach s → (p : ℕ) → (s.output.held p ≡ false) ⊎ Reason s p
not_held_in_vain s r p = (reach-IsKept r).held p
