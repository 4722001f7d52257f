-- ===== src/Dispatch/Cases.antt =====
-- The branches of `post`, each with what its tests say: the rule by which the other modules split.
use tirtc_client_python.Prelude.{
  ◌⊎◌, ◌<◌, ◌≡◌, Bool, true, false, not, ◌&&◌, ◌||◌, sym, refl, if-cases, Option-cases, inl, inr,
  List, arith, str_eq, length, any, any-count_if, count_if, if◌then◌else◌, leb,
}
use tirtc_client_python.Dispatch.{
  Event, Dispatcher, Posted, post, append, unchanged, drop_frame, without, post_full, post_new,
  replace_latest, evict,
}
use tirtc_client_python.Dispatch.Queue.{is_final, Replaced, replace_latest_lem, Evicted, evict_lem}

-- `P` holds of whatever a call of `post` comes to, if it does on each branch.
module _ {ℓ} (P : Posted → Type ℓ) (d : Dispatcher) (e : Event)
    (refused : (d.closed ≡ true)
        ⊎ ((e.frame ≡ false)
            × ((e.terminal ≡ false)
                ⊎ (any (λ x. str_eq x.kind e.kind && x.terminal) d.events ≡ true)))
      → P (unchanged d false))
    (dropped : e.frame ≡ true → d.closed ≡ false → P (drop_frame d))
    (appended : (e.frame ≡ true → d.frame_count < d.frame_capacity)
      → length d.events < d.capacity
      → d.closed ≡ false
      → P (append d e))
    (squeezed : (victim : Event) (rest : List Event)
      → e.frame ≡ false
      → Evicted d.events victim rest
      → d.closed ≡ false
      → P (append (without d victim rest) e))
    (overfull : e.frame ≡ false
      → e.terminal ≡ true
      → count_if (is_final e.kind) d.events ≡ 0
      → d.closed ≡ false
      → P (append d e)) where
  post_stuck :
      (t a : Bool)
      → t ≡ e.terminal
      → a ≡ any (λ x. str_eq x.kind e.kind && x.terminal) d.events
      → e.frame ≡ false
      → d.closed ≡ false
      → P (if not t || a then unchanged d false else append d e)
  post_stuck false a p q f c = refused (inr (f, inl (sym p)))
  post_stuck true true p q f c = refused (inr (f, inr (sym q)))
  post_stuck true false p q f c =
      overfull f (sym p) (any-count_if (is_final e.kind) d.events (sym q)) c

  post_full-cases : d.closed ≡ false → P (post_full d e)
  unfolding post_full
  post_full-cases c =
      if-cases P e.frame (λ f. dropped f c)
        λ f. elim (Option-cases (evict d.events)) [
          | inl full ↦ rw full (post_stuck _ _ refl refl f c)
          | inr ((victim, rest), found) ↦
              rw found (squeezed victim rest f (evict_lem d.events rest victim found) c)
        ]

  post_new-cases : d.closed ≡ false → P (post_new d e)
  unfolding post_new
  post_new-cases c =
      if-cases P (e.frame && leb d.frame_capacity d.frame_count) (λ full. dropped (ground arith) c)
        λ fits.
          if-cases P (leb d.capacity (length d.events)) (λ full. post_full-cases c)
            λ room. appended (λ f. ground arith) (ground arith) c

  pub post-cases :
      (latest : Bool)
      → ((events : List Event)
          → latest ≡ true
          → Replaced d.events e events
          → d.closed ≡ false
          → P (unchanged (record d { events = events }) true))
      → P (post d e latest)
  unfolding post
  post-cases latest replaced =
      if-cases P d.closed (λ c. refused (inl c))
        λ c.
          if-cases P latest
            (λ l. elim (Option-cases (replace_latest d.events e)) [
              | inl missing ↦ rw missing (post_new-cases c)
              | inr (events, found) ↦
                  rw found (replaced events l (replace_latest_lem d.events events e found) c)
            ])
            λ l. post_new-cases c
