-- ===== src/Dispatch/Queue.antt =====
-- What the two scans of the deque keep: `replace_latest` and `evict`.
use tirtc_client_python.Prelude.{
  ◌≡◌, refl, ap, subst, inl, inr, Option-cases, Bool-cases, ◌++◌, Bool, true, false, not, ◌&&◌,
  none, some, List, [], ◌∷◌, arith, String, str_eq, any,
}
use tirtc_client_python.Dispatch.{Event, replace_latest, evict}

abbrev pub is_frame : Event → Bool
is_frame e = e.frame

abbrev pub is_terminal : Event → Bool
is_terminal e = e.terminal

abbrev pub is_task : Event → Bool
is_task e = str_eq e.kind "native_task"

abbrev pub is_final : String → Event → Bool
is_final kind e = str_eq e.kind kind && e.terminal

-- One event of the kind, and no frame, has given its place to `e`.
pub record Replaced (xs : List Event) (e : Event) (ys : List Event) : Type 0 where
  pub before : List Event
  pub old : Event
  pub after : List Event
  pub was : xs ≡ before ++ old ∷ after
  pub becomes : ys ≡ before ++ e ∷ after
  pub same_kind : str_eq old.kind e.kind ≡ true
  pub no_frame : old.frame ≡ false

Replaced-cons :
    (x : Event) (xs ys : List Event) (e : Event) → Replaced xs e ys → Replaced (x ∷ xs) e (x ∷ ys)
Replaced-cons x xs ys e r = record {
  before = x ∷ r.before;
  old = r.old;
  after = r.after;
  was = ap (◌∷◌ x) r.was;
  becomes = ap (◌∷◌ x) r.becomes;
  same_kind = r.same_kind;
  no_frame = r.no_frame;
}

pub replace_latest_lem :
    (xs ys : List Event) (e : Event) → replace_latest xs e ≡ some ys → Replaced xs e ys
unfolding replace_latest
replace_latest_lem [] ys e h = absurd (ground arith)
replace_latest_lem (x ∷ xs) ys e h = elim (Option-cases (replace_latest xs e)) [
  | inl missing ↦ record {
    before = [];
    old = x;
    after = xs;
    was = refl;
    becomes = ground arith;
    same_kind = ground arith;
    no_frame = ground arith;
  }
  | inr (zs, found) ↦
      subst (Replaced (x ∷ xs) e) (ground arith)
        (Replaced-cons x xs zs e (replace_latest_lem xs zs e found))
]

-- The oldest event that is not terminal has gone.
pub record Evicted (xs : List Event) (victim : Event) (ys : List Event) : Type 0 where
  pub before : List Event
  pub after : List Event
  pub was : xs ≡ before ++ victim ∷ after
  pub becomes : ys ≡ before ++ after
  pub skipped : any (λ x. not x.terminal) before ≡ false
  pub not_terminal : victim.terminal ≡ false

Evicted-cons :
    (x v : Event) (xs ys : List Event)
    → x.terminal ≡ true
    → Evicted xs v ys
    → Evicted (x ∷ xs) v (x ∷ ys)
Evicted-cons x v xs ys t r = record {
  before = x ∷ r.before;
  after = r.after;
  was = ap (◌∷◌ x) r.was;
  becomes = ap (◌∷◌ x) r.becomes;
  skipped = rw t r.skipped;
  not_terminal = r.not_terminal;
}

pub evict_lem : (xs ys : List Event) (v : Event) → evict xs ≡ some (v, ys) → Evicted xs v ys
unfolding evict
evict_lem [] ys v h = absurd (ground arith)
evict_lem (x ∷ xs) ys v h = elim (Bool-cases x.terminal) [
  | inl t ↦ elim (Option-cases (evict xs)) [
    | inl missing ↦ absurd (ground arith)
    | inr (found, e) ↦
        let same : (found.0 ≡ v) × (x ∷ found.1 ≡ ys) = ground arith in
        subst (λ u. Evicted (x ∷ xs) u ys) same.0
          (subst (Evicted (x ∷ xs) found.0) same.1
            (Evicted-cons x found.0 xs found.1 t (evict_lem xs found.1 found.0 e)))
  ]
  | inr t ↦ record {
    before = [];
    after = xs;
    was = ground arith;
    becomes = ground arith;
    skipped = refl;
    not_terminal = ground arith;
  }
]

pub evict-none : (xs : List Event) → evict xs ≡ none → any (λ x. not x.terminal) xs ≡ false
unfolding evict
evict-none [] h = refl
evict-none (x ∷ xs) h = ground (arith, evict-none xs)
