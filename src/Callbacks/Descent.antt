-- ===== src/Callbacks/Descent.antt =====
-- The search finds the target just where it can be reached.
use tirtc_client_python.Prelude.{
  ℕ, zero, suc, ◌+◌, ◌*◌, ◌<◌, ◌≡◌, ◌⊎◌, inl, inr, refl, subst, sym, ◌∙◌, ◌||◌, if◌then◌else◌, Bool,
  true, false, Option, none, some, List, [], ◌∷◌, ◌++◌, ◌==◌, any, length, ltb, ltb→lt, arith,
}
use tirtc_client_python.Callbacks.{Objects, mem, links, walk, callback_descends_from}
use tirtc_client_python.Callbacks.Measure.{
  fresh, fresh_less, fresh-empty, all_below, all_below-append, both,
}

abbrev pub is_it : ℕ → Option ℕ → Bool
is_it w none = false
is_it w (some v) = v == w

-- Whether a stack holds an object.
abbrev pub holds : ℕ → List (Option ℕ) → Bool
holds w pending = any (is_it w) pending

-- An object that can be reached from `owner` by the four attributes.
pub data Found (objects : Objects) (owner : ℕ) : ℕ → Type 0 where
  start : Found objects owner owner
  follow :
      {v w : ℕ} → Found objects owner v → holds w (links objects v) ≡ true → Found objects owner w

-- What the search answers, and rightly.
pub data Answers (objects : Objects) (owner target : ℕ) : Option Bool → Type 0 where
  yes : Found objects owner target → Answers objects owner target (some true)
  no : ¬ Found objects owner target → Answers objects owner target (some false)

or-cases : (a b : Bool) → (a || b) ≡ true → (a ≡ true) ⊎ (b ≡ true)
or-cases true b h = inl refl
or-cases false b h = inr h

or-left : (a b : Bool) → a ≡ true → (a || b) ≡ true
or-left a b h = ground (arith, h)

or-right : (a b : Bool) → b ≡ true → (a || b) ≡ true
or-right true b h = refl
or-right false b h = h

test-cases : (a b : Bool) → (if a then true else b) ≡ true → (a ≡ true) ⊎ (b ≡ true)
test-cases true b h = inl refl
test-cases false b h = inr h

test-left : (a b : Bool) → a ≡ true → (if a then true else b) ≡ true
test-left a b h = ground (arith, h)

test-right : (a b : Bool) → b ≡ true → (if a then true else b) ≡ true
test-right true b h = refl
test-right false b h = h

holds-append : (w : ℕ) (xs ys : List (Option ℕ)) → holds w (xs ++ ys) ≡ (holds w xs || holds w ys)
holds-append w [] ys = refl
holds-append w (x ∷ xs) ys = ground (arith, holds-append w xs ys)

same_number : (c w : ℕ) → (c == w) ≡ true → c ≡ w
same_number c w h = ground (arith, h)

same_number_refl : (c : ℕ) → (c == c) ≡ true
same_number_refl c = ground arith

module _ (objects : Objects) (owner target : ℕ) where
  -- Whether an object has been seen or is still to come.
  abbrev known : List (Option ℕ) → List ℕ → ℕ → Bool
  known pending seen w = mem w seen || holds w pending

  record IsSearch (pending : List (Option ℕ)) (seen : List ℕ) : Type 0 where
    pub reached : (w : ℕ) → holds w pending ≡ true → Found objects owner w
    pub owner_known : known pending seen owner ≡ true
    pub no_target : mem target seen ≡ false
    pub followed :
        (v w : ℕ)
        → mem v seen ≡ true
        → holds w (links objects v) ≡ true
        → known pending seen w ≡ true

  only_seen : (v : ℕ) (seen : List ℕ) → known [] seen v ≡ true → mem v seen ≡ true
  only_seen v seen h = elim (or-cases (mem v seen) false h) [
    | inl old ↦ old
    | inr never ↦ absurd (ground (arith, never))
  ]

  all_seen :
      (seen : List ℕ) → IsSearch [] seen → (v : ℕ) → Found objects owner v → mem v seen ≡ true
  all_seen seen s v start = only_seen owner seen s.owner_known
  all_seen seen s w (follow {v} found link) =
      only_seen w seen (s.followed v w (all_seen seen s v found) link)

  skipped :
      (rest : List (Option ℕ)) (seen : List ℕ) → IsSearch (none ∷ rest) seen → IsSearch rest seen
  skipped rest seen s = record {
    reached = λ w h. s.reached w h;
    owner_known = s.owner_known;
    no_target = s.no_target;
    followed = s.followed;
  }

  known_again :
      (c : ℕ) (rest : List (Option ℕ)) (seen : List ℕ) (w : ℕ)
      → mem c seen ≡ true
      → known (some c ∷ rest) seen w ≡ true
      → known rest seen w ≡ true
  known_again c rest seen w old h = elim (or-cases (mem w seen) (holds w (some c ∷ rest)) h) [
    | inl before ↦ or-left (mem w seen) (holds w rest) before
    | inr there ↦ elim (test-cases (c == w) (holds w rest) there) [
      | inl same ↦
          or-left (mem w seen) (holds w rest)
            (subst (λ v. mem v seen ≡ true) (same_number c w same) old)
      | inr later ↦ or-right (mem w seen) (holds w rest) later
    ]
  ]

  seen_again :
      (c : ℕ) (rest : List (Option ℕ)) (seen : List ℕ)
      → IsSearch (some c ∷ rest) seen
      → mem c seen ≡ true
      → IsSearch rest seen
  seen_again c rest seen s old = record {
    reached = λ w h. s.reached w (ground (arith, h));
    owner_known = known_again c rest seen owner old s.owner_known;
    no_target = s.no_target;
    followed = λ v w h k. known_again c rest seen w old (s.followed v w h k);
  }

  known_visited :
      (c : ℕ) (rest : List (Option ℕ)) (seen : List ℕ) (w : ℕ)
      → known (some c ∷ rest) seen w ≡ true
      → known (links objects c ++ rest) (c ∷ seen) w ≡ true
  known_visited c rest seen w h = elim (or-cases (mem w seen) (holds w (some c ∷ rest)) h) [
    | inl before ↦ or-left (mem w (c ∷ seen)) _ (test-right (c == w) (mem w seen) before)
    | inr there ↦ elim (test-cases (c == w) (holds w rest) there) [
      | inl same ↦ or-left (mem w (c ∷ seen)) _ (test-left (c == w) (mem w seen) same)
      | inr later ↦
          or-right (mem w (c ∷ seen)) (holds w (links objects c ++ rest))
            (holds-append w (links objects c) rest ∙ or-right _ (holds w rest) later)
    ]
  ]

  visited :
      (c : ℕ) (rest : List (Option ℕ)) (seen : List ℕ)
      → IsSearch (some c ∷ rest) seen
      → (c == target) ≡ false
      → IsSearch (links objects c ++ rest) (c ∷ seen)
  visited c rest seen s other = record {
    reached = λ w h.
        elim (or-cases (holds w (links objects c)) (holds w rest)
          (sym (holds-append w (links objects c) rest) ∙ h)) [
            | inl link ↦
                follow (s.reached c (test-left (c == c) (holds c rest) (same_number_refl c))) link
            | inr later ↦ s.reached w (test-right (c == w) (holds w rest) later)
          ];
    owner_known = known_visited c rest seen owner s.owner_known;
    no_target = ground (arith, other, s.no_target);
    followed = λ v w h k. elim (test-cases (c == v) (mem v seen) h) [
      | inl same ↦ or-right (mem w (c ∷ seen)) (holds w (links objects c ++ rest)) (
          holds-append w (links objects c) rest
          ∙ or-left (holds w (links objects c)) (holds w rest)
              (subst (λ u. holds w (links objects u) ≡ true) (sym (same_number c v same)) k))
      | inr before ↦ known_visited c rest seen w (s.followed v w before k)
    ];
  }

  length-links :
      (c : ℕ) (rest : List (Option ℕ)) → length (links objects c ++ rest) ≡ 4 + length rest
  unfolding links
  length-links c rest = ground arith

  visit-cases :
      (P : Option Bool → Type 0) (b d : Bool) (x y : Option Bool)
      → (b ≡ true → P x)
      → (b ≡ false → d ≡ true → P (some true))
      → (b ≡ false → d ≡ false → P y)
      → P (elim b [ true ↦ x | false ↦ elim d [ true ↦ some true | false ↦ y ] ])
  visit-cases P true d x y old hit new = old refl
  visit-cases P false true x y old hit new = hit refl refl
  visit-cases P false false x y old hit new = new refl refl

  module _ (size : ℕ) (bounded : (v : ℕ) → all_below size (links objects v) ≡ true) where
    walk-Answers :
        (fuel : ℕ) (pending : List (Option ℕ)) (seen : List ℕ)
        → all_below size pending ≡ true
        → length pending + 4 * fresh size seen < fuel
        → IsSearch pending seen
        → Answers objects owner target (walk objects target fuel pending seen)
    unfolding walk
    walk-Answers zero pending seen inside enough s = absurd (omega (arith, enough))
    walk-Answers (suc fuel) [] seen inside enough s =
        no (λ found. absurd (ground (arith, s.no_target, all_seen seen s target found)))
    walk-Answers (suc fuel) (none ∷ rest) seen inside enough s =
        walk-Answers fuel rest seen inside (omega (arith, enough)) (skipped rest seen s)
    walk-Answers (suc fuel) (some c ∷ rest) seen inside enough s =
        let (small, others) = both (ltb c size) (all_below size rest) inside in
        visit-cases (Answers objects owner target) (mem c seen) (c == target) _ _
          (λ old.
            walk-Answers fuel rest seen others (omega (arith, enough))
              (seen_again c rest seen s old))
          (λ new hit. yes (
            subst (Found objects owner) (same_number c target hit)
              (s.reached c (test-left (c == c) (holds c rest) (same_number_refl c)))))
          (λ new other.
            walk-Answers fuel (links objects c ++ rest) (c ∷ seen)
              (all_below-append size (links objects c) rest (bounded c) others)
              (omega (
                arith,
                enough,
                length-links c rest,
                fresh_less c seen size (ltb→lt c size small) new,
              ))
              (visited c rest seen s other))

    -- Where the numbers of the objects stay below `size`, `_callback_descends_from` ends, whatever
    -- cycles the attributes make, and answers yes just where the target can be reached from the
    -- owner by `_client`, `_parent`, `_replay` and `_bound`.
    pub callback_descends_from-Answers :
        owner < size
        → Answers objects owner target (callback_descends_from objects target size (some owner))
    unfolding callback_descends_from
    callback_descends_from-Answers small =
        walk-Answers (4 * size + 2) (some owner ∷ []) [] (ground (arith, small))
          (omega (arith, fresh-empty size))
          (record {
            reached = λ w h. elim (test-cases (owner == w) false h) [
              | inl same ↦ subst (Found objects owner) (same_number owner w same) start
              | inr never ↦ absurd (ground (arith, never))
            ];
            owner_known = ground arith;
            no_target = refl;
            followed = λ v w h k. absurd (ground (arith, h));
          })
