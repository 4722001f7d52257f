-- ===== src/Outputs/Held.antt =====
-- A parent's set holds an output only while there is a reason.
use tirtc_client_python.Prelude.{
  ℕ, suc, ◌≡◌, inl, inr, refl, sym, ◌∙◌, Bool, Option, none, some, ◌==◌, Bool-cases, arith,
}
use tirtc_client_python.Outputs.{parent_drops, detach_end}
use tirtc_client_python.Outputs.System.{System, more, fewer}
use tirtc_client_python.Outputs.Sections.{is_open}
use tirtc_client_python.Outputs.Reasons.{
  Reason, is_bound, is_attaching, same_parent, unbound_attacher, is_leaving, is_telling,
  close_is_telling, LeaverOk, IsKept, held_after, dropped, unbound_closer, none_is_not,
}

leaver_at :
    {b : Option ℕ} {p : ℕ} (opened : Bool) (l : Option ℕ)
    → LeaverOk l b opened
    → l ≡ some p
    → (q : ℕ) → b ≡ some q
    → q ≡ p
leaver_at opened none h left q k = absurd (ground (arith, left))
leaver_at opened (some r) (inl h) left q k = same_parent q _ (sym k ∙ h ∙ left)
leaver_at {b} opened (some r) (inr (h, shut)) left q k = absurd (none_is_not b q h k)

pub leaves_parent-IsKept :
    (s : System) (p : ℕ)
    → s.leaving ≡ some p
    → IsKept s
    → IsKept (record s { output = detach_end s.output; leaving = none; telling = more p s.telling })
unfolding detach_end
leaves_parent-IsKept s p left h = record {
  detaching = refl;
  attacher = unbound_attacher s.attaching s.output.bound (is_open s.output.close.status) h.attacher;
  leaver = tt;
  closer = unbound_closer s.closer s.output.bound s.output.close.status h.closer;
  held = λ q.
      held_after s
        (record s { output = detach_end s.output; leaving = none; telling = more p s.telling }) q
        (inr refl) (h.held q) (λ k. inr (is_attaching k))
        (λ k. told_here q (leaver_at (is_open s.output.close.status) s.leaving h.leaver left q k))
        (λ k. told_here q (same_parent q p (sym k ∙ left))) (λ n k. inr (more_told q n k))
        (λ g k. inr (close_is_telling g k));
}
  where
    told_here :
        (q : ℕ)
        → q ≡ p
        → Reason
            (record s { output = detach_end s.output; leaving = none; telling = more p s.telling })
            q
    told_here q here = is_telling (s.telling q) (ground (arith, here))

    more_told :
        (q n : ℕ)
        → s.telling q ≡ suc n
        → Reason
            (record s { output = detach_end s.output; leaving = none; telling = more p s.telling })
            q
    more_told q n k = elim (Bool-cases (q == p)) [
      | inl here ↦ is_telling (s.telling q) (ground (arith, here))
      | inr other ↦ is_telling n (ground (arith, other, k))
    ]

pub tells-IsKept :
    (s : System) (p : ℕ)
    → IsKept s
    → IsKept (record s { output = parent_drops p s.output; telling = fewer p s.telling })
unfolding parent_drops
tells-IsKept s p h = record {
  detaching = h.detaching;
  attacher = h.attacher;
  leaver = h.leaver;
  closer = h.closer;
  held = λ q.
      held_after s (record s { output = parent_drops p s.output; telling = fewer p s.telling }) q
        (dropped (s.output.held q) p q) (h.held q) (λ k. inr (is_attaching k)) is_bound is_leaving
        (λ n k. elim (Bool-cases (q == p)) [
          | inl here ↦ inl (ground (arith, here))
          | inr other ↦ inr (is_telling n (ground (arith, other, k)))
        ])
        (λ g k. inr (close_is_telling g k));
}
