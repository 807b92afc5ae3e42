-- ===== src/Study/Prices/Spacing.antt =====
-- Episodes of one direction lie four hours apart.
use tidal_crypto_intelligenc.Base.{
  ℕ, zero, suc, ◌+◌, ◌*◌, ◌≤◌, ◌<◌, ◌≡◌, refl, ◌⊎◌, inl, inr, sym, ap, le→ltb, false, not, ◌&&◌,
  ltb, ◌==◌, if◌then◌else◌, List, [], ◌∷◌, ◌++◌, String, hour, arith, All, if-split,
}
use tidal_crypto_intelligenc.Study.{Episode}
use tidal_crypto_intelligenc.Study.Prices.{
  Floats, Last, last_of, seen_at, five_minutes, Candles, price_cross, episode_at, visit,
  episodes_from, price_episodes,
}

-- Of the two directions.
abbrev pub Directed : String → Type 0
Directed s = (s ≡ "buy") ⊎ (s ≡ "sell")

-- Since an instant, and four hours after the last one of its direction, if there was one.
abbrev Late : Last → ℕ → Episode → Type 0
Late l t e =
    Directed e.direction
    × (t ≤ e.detected)
    × ((last_of l e.direction ≡ 0) ⊎ (last_of l e.direction + 4 * hour ≤ e.detected))

abbrev pub Spaced : List Episode → Type 0
Spaced [] = Unit
Spaced (e ∷ es) =
    All (λ f. e.direction ≡ f.direction → e.detected + 4 * hour ≤ f.detected) es × Spaced es

-- The last times after an instant.
abbrev Moved : Last → Last → ℕ → Type 0
Moved l l' t =
    (d : String)
    → Directed d
    → (last_of l' d ≡ last_of l d)
      ⊎ ((last_of l' d ≡ t) × ((last_of l d ≡ 0) ⊎ (last_of l d + 4 * hour ≤ t)))

map-Late :
    (l l' : Last) (t t' : ℕ) (es : List Episode)
    → 0 < t
    → t ≤ t'
    → Moved l l' t
    → All (Late l' t') es
    → All (Late l t) es
map-Late l l' t t' [] p h m a = tt
map-Late l l' t t' (e ∷ es) p h m a = (one, map-Late l l' t t' es p h m a.1)
  where
    one : Late l t e
    one = (
      a.0.0,
      omega arith,
      (elim (m e.direction a.0.0) [
        | inl same ↦ rw⁻¹ same a.0.2
        | inr (at, before) ↦ elim before [ inl z ↦ inl z | inr b ↦ inr (omega arith) ]
      ]),
    )

-- The direction's last time after it was seen, and the other one's.
last_of-seen_at :
    (side d : String) (t : ℕ) (l : Last)
    → Directed side
    → Directed d
    → ((side ≡ d) × (last_of (seen_at side t l) d ≡ t))
      ⊎ (last_of (seen_at side t l) d ≡ last_of l d)
last_of-seen_at side d t l (inl a) (inl b) = rw (a, b) (inl (refl, refl))
last_of-seen_at side d t l (inr a) (inr b) = rw (a, b) (inl (refl, refl))
last_of-seen_at side d t l (inl a) (inr b) = rw (a, b) (inr refl)
last_of-seen_at side d t l (inr a) (inl b) = rw (a, b) (inr refl)

last_of-seen :
    (side : String) (t : ℕ) (l : Last) → Directed side → last_of (seen_at side t l) side ≡ t
last_of-seen side t l (inl a) = rw a refl
last_of-seen side t l (inr a) = rw a refl

module _ (F : Floats) (c : Candles F) (event_id : String → ℕ → String) where
  -- What one visit gives and leaves.
  record Visited (l : Last) (t : ℕ) (r : Last × List Episode) : Type 0 where
    pub moved : Moved l r.0 t
    pub given :
        (r.1 ≡ [])
        ⊎ ((e : Episode) × (r.1 ≡ e ∷ [])
            × Late l t e
            × (e.detected ≡ t)
            × (last_of r.0 e.direction ≡ t))

  none-Visited : (l : Last) (t : ℕ) → Visited l t (l, [])
  none-Visited l t = record { moved = λ d k. inl refl; given = inl refl }

  -- The time since the last one of the direction has passed, or there was none.
  passed : (n t : ℕ) → (not (n == 0) && ltb t (n + 4 * hour)) ≡ false → (n ≡ 0) ⊎ (n + 4 * hour ≤ t)
  passed n t h = ground arith

  seen-Visited :
      (l : Last) (t : ℕ) (side : String)
      → Directed side
      → (last_of l side ≡ 0) ⊎ (last_of l side + 4 * hour ≤ t)
      → Visited l t (seen_at side t l, episode_at F event_id side t ∷ [])
  seen-Visited l t side s h = record {
    moved = λ d k. (elim (last_of-seen_at side d t l s k) [
      | inl (same, at) ↦ inr (at, rw⁻¹ same h)
      | inr other ↦ inl other
    ]);
    given =
        inr
          (episode_at F event_id side t, refl, (s, omega arith, h), refl, last_of-seen side t l s);
  }

  visit-Visited :
      (l : Last) (t : ℕ) (side : String) → Directed side → Visited l t (visit F event_id c t side l)
  unfolding visit
  visit-Visited l t side s =
      if-split (Visited l t) (not (last_of l side == 0) && ltb t (last_of l side + 4 * hour)) _ _
        (λ e. none-Visited l t)
        (λ e.
          if-split (Visited l t) (price_cross F c t side) _ _
            (λ x. seen-Visited l t side s (passed (last_of l side) t e)) (λ x. none-Visited l t))

  -- The rest comes after what a visit gives.
  chain :
      (l : Last) (t : ℕ) (r : Last × List Episode) (rest : List Episode)
      → 0 < t
      → Visited l t r
      → All (Late r.0 t) rest
      → Spaced rest
      → All (Late l t) (r.1 ++ rest) × Spaced (r.1 ++ rest)
  chain l t r rest p v a s = elim v.given [
    | inl none_given ↦ rw none_given (map-Late l r.0 t t rest p (omega arith) v.moved a, s)
    | inr (e, is, late, at, mine) ↦
        rw is
          ((late, map-Late l r.0 t t rest p (omega arith) v.moved a), (apart e rest at mine a, s))
  ]
    where
      apart :
          (e : Episode) (es : List Episode)
          → e.detected ≡ t
          → last_of r.0 e.direction ≡ t
          → All (Late r.0 t) es
          → All (λ f. e.direction ≡ f.direction → e.detected + 4 * hour ≤ f.detected) es
      apart e [] at mine h = tt
      apart e (f ∷ fs) at mine h = (after, apart e fs at mine h.1)
        where
          after : e.direction ≡ f.direction → e.detected + 4 * hour ≤ f.detected
          after same =
              let held : last_of r.0 f.direction ≡ t = (rw⁻¹ same mine) in
              elim h.0.2 [ inl z ↦ omega arith | inr b ↦ omega arith ]

  episodes_from-Spaced :
      (n t to : ℕ) (l : Last)
      → 0 < t
      → let es = episodes_from F event_id c n t to l in All (Late l t) es × Spaced es
  unfolding episodes_from
  episodes_from-Spaced zero t to l p = (tt, tt)
  episodes_from-Spaced (suc n) t to l p =
      let b = visit F event_id c t "buy" l in
      let s = visit F event_id c t "sell" b.0 in
      let rest = episodes_from F event_id c n (t + five_minutes) to s.0 in
      let later = episodes_from-Spaced n (t + five_minutes) to s.0 (omega arith) in
      let two =
        chain b.0 t s rest p (visit-Visited b.0 t "sell" (inr refl))
          (map-Late s.0 s.0 t (t + five_minutes) rest p (omega arith) (λ d k. inl refl) later.0)
          later.1 in
      let one = chain l t b (s.1 ++ rest) p (visit-Visited l t "buy" (inl refl)) two.0 two.1 in
      if-split (λ (es : List Episode). All (Late l t) es × Spaced es) (ltb t to) _ _ (λ e. one)
        (λ e. (tt, tt))

  -- From an instant after Go's zero time, two episodes of one direction are detected at least four
  -- hours apart, in the order of the list.
  pub price_episodes-Spaced :
      (from to : ℕ) → 0 < from → Spaced (price_episodes F event_id c from to)
  unfolding price_episodes
  price_episodes-Spaced from to p = (episodes_from-Spaced _ from to _ p).1

  past_end : (n t to : ℕ) (l : Last) → to ≤ t → episodes_from F event_id c n t to l ≡ []
  unfolding episodes_from
  past_end zero t to l h = refl
  past_end (suc n) t to l h = rw (le→ltb t to h) refl

  same_episodes :
      (m n t to : ℕ) (l : Last)
      → to ≤ t + m * five_minutes
      → to ≤ t + n * five_minutes
      → episodes_from F event_id c m t to l ≡ episodes_from F event_id c n t to l
  unfolding episodes_from
  same_episodes zero n t to l h k = sym (past_end n t to l (omega arith))
  same_episodes (suc m) zero t to l h k = past_end (suc m) t to l (omega arith)
  same_episodes (suc m) (suc n) t to l h k =
      ap
        (λ es.
          let b = visit F event_id c t "buy" l in
          let s = visit F event_id c t "sell" b.0 in if ltb t to then b.1 ++ (s.1 ++ es) else [])
        (same_episodes m n (t + five_minutes) to _ (omega arith) (omega arith))

  -- The fuel is enough: every fuel whose steps of five minutes reach the end gives the episodes.
  pub price_episodes_fuel :
      (n from to : ℕ)
      → to ≤ from + n * five_minutes
      → episodes_from F event_id c n from to (record { buy = 0; sell = 0 })
        ≡ price_episodes F event_id c from to
  unfolding price_episodes
  price_episodes_fuel n from to h = same_episodes n _ from to _ h (omega arith)
