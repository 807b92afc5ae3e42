-- ===== src/Signals/Track/Closed.antt =====
-- A signal that is closed stays as it closed: no tick reopens it or writes its confirmation again.
use mathlib.Core.Path.{subst}
use text.Mathlib.TextEquality.{eq_iff}
use tidal_crypto_intelligenc.Base.{
  ℕ, zero, suc, ◌≡◌, ◌⊎◌, refl, sym, ap, ◌∙◌, Bool, true, false, ◌&&◌, ◌||◌, if-split, Option, some,
  List, [], ◌∷◌, String, str_eq, is_some, All, Bool-cases, Option-cases, some_inv, inl, inr, arith,
}
use tidal_crypto_intelligenc.Study.Prices.{Floats}
use tidal_crypto_intelligenc.Signals.{Bars, or_else}
use tidal_crypto_intelligenc.Study.Prices.{Candles}
use tidal_crypto_intelligenc.Signals.Lifecycle.{Signal, PriceProgress, progress_terminal}
use tidal_crypto_intelligenc.Signals.Track.{
  take, insert_by, sort_by, select, is_open, open_signals, Inputs, turned, track, track_all,
  put_row, find_row, followed_signals, progress_now, same_progress, follow, follow_all, put_rows,
  lifecycle, lifecycles,
}

module _ (F : Floats) where
  -- What the life of a signal settles.
  pub record SameCore (c s : Signal F) : Type 0 where
    pub id : s.id ≡ c.id
    pub state : s.state ≡ c.state
    pub confirmed_at : s.confirmed_at ≡ c.confirmed_at
    pub confirmed_through : s.confirmed_through ≡ c.confirmed_through
    pub frozen_high : s.frozen_high ≡ c.frozen_high
    pub frozen_low : s.frozen_low ≡ c.frozen_low
    pub repair : s.repair ≡ c.repair

  -- A row of the signal's id holds what the signal's life settled.
  abbrev pub Sealed : Signal F → Signal F → Type 0
  Sealed c s = (str_eq s.id c.id ≡ false) ⊎ SameCore c s

  Sealed-core : (c s : Signal F) → Sealed c s → str_eq s.id c.id ≡ true → SameCore c s
  Sealed-core c s (inl e) h = cc
  Sealed-core c s (inr k) h = k

module _ (F : Floats) (Q : Signal F → Type 0) where
  All-select : (p : Signal F → Bool) (rows : List (Signal F)) → All Q rows → All Q (select F p rows)
  unfolding select
  All-select p [] h = tt
  All-select p (s ∷ ss) h =
      if-split (λ (l : List (Signal F)). All Q l) (p s) _ _ (λ e. (h.0, All-select p ss h.1))
        (λ e. All-select p ss h.1)

  All-insert :
      (b : Signal F → Signal F → Bool) (s : Signal F) (rows : List (Signal F))
      → Q s
      → All Q rows
      → All Q (insert_by F b s rows)
  unfolding insert_by
  All-insert b s [] q h = (q, tt)
  All-insert b s (t ∷ ts) q h =
      if-split (λ (l : List (Signal F)). All Q l) (b s t) _ _ (λ e. (q, h))
        (λ e. (h.0, All-insert b s ts q h.1))

  All-sort :
      (b : Signal F → Signal F → Bool) (rows : List (Signal F))
      → All Q rows
      → All Q (sort_by F b rows)
  unfolding sort_by
  All-sort b [] h = tt
  All-sort b (s ∷ ss) h = All-insert b s (sort_by F b ss) h.0 (All-sort b ss h.1)

  All-take : (n : ℕ) (rows : List (Signal F)) → All Q rows → All Q (take n rows)
  All-take n [] h = tt
  All-take zero (s ∷ ss) h = tt
  All-take (suc n) (s ∷ ss) h = (h.0, All-take n ss h.1)

  All-put : (u : Signal F) (rows : List (Signal F)) → Q u → All Q rows → All Q (put_row F u rows)
  unfolding put_row
  All-put u [] q h = (q, tt)
  All-put u (s ∷ ss) q h =
      if-split (λ (l : List (Signal F)). All Q l) (str_eq s.id u.id) _ _ (λ e. (q, h.1))
        (λ e. (h.0, All-put u ss q h.1))

  found :
      (id : String) (rows : List (Signal F)) (s : Signal F)
      → find_row F id rows ≡ some s
      → All Q rows
      → Q s × (str_eq s.id id ≡ true)
  unfolding find_row
  found id [] s e h = cc
  found id (t ∷ ts) s e h = elim (Bool-cases (str_eq t.id id)) [
    | inl g ↦
        let same = some_inv (rw g at e) in subst (λ v. Q v × (str_eq v.id id ≡ true)) same (h.0, g)
    | inr g ↦ found id ts s (rw g at e) h.1
  ]

module _ (F : Floats) (c : Signal F) (closed : is_open F c ≡ false) where
  -- The rows that a query of open signals returns are open.
  open-select :
      (p : Signal F → Bool) (rows : List (Signal F))
      → All (λ s. is_open F s ≡ true) (select F (λ s. p s && is_open F s) rows)
  unfolding select
  open-select p [] = tt
  open-select p (s ∷ ss) = elim (Bool-cases (p s && is_open F s)) [
    | inl e ↦ rw e (ground arith, open-select p ss)
    | inr e ↦ rw e (open-select p ss)
  ]

  turned_id : (x : Inputs F) (s : Signal F) → (turned F x s).id ≡ s.id
  turned_id x s = ground arith

  open_not : (s : Signal F) → SameCore F c s → is_open F s ≡ true → true ≡ false
  open_not s k o = let e = k.state in let a = k.confirmed_at in let n = rw (e, a) at o in cc

  track_id : (x : Inputs F) (s u : Signal F) → track F x s ≡ some u → u.id ≡ s.id
  unfolding track
  track_id x s u e = elim (Bool-cases (str_eq s.state (turned F x s).state)) [
    | inl g ↦ let n = rw g at e in cc
    | inr g ↦ let n = some_inv (rw g at e) in ap (λ (v : Signal F). v.id) (sym n) ∙ turned_id x s
  ]

  update-Sealed :
      (x : Inputs F) (s u : Signal F)
      → track F x s ≡ some u
      → Sealed F c s
      → is_open F s ≡ true
      → Sealed F c u
  update-Sealed x s u e h o = elim (Bool-cases (str_eq u.id c.id)) [
    | inr g ↦ inl g
    | inl g ↦
        let same = track_id x s u e in
        let bad = open_not s (Sealed-core F c s h (rw same at g)) o in cc
  ]

  track_all-Sealed :
      (x : Inputs F) (rows : List (Signal F))
      → All (Sealed F c) rows
      → All (λ s. is_open F s ≡ true) rows
      → All (Sealed F c) (track_all F x rows)
  unfolding track_all
  track_all-Sealed x [] h o = tt
  track_all-Sealed x (s ∷ ss) h o =
      let rest = track_all-Sealed x ss h.1 o.1 in
      elim (Option-cases (track F x s)) [
        | inl e ↦ rw e rest
        | inr (u, e) ↦ rw e (update-Sealed x s u e h.0 o.0, rest)
      ]

  row_or :
      (row : Signal F) (updates : List (Signal F))
      → Sealed F c row
      → All (Sealed F c) updates
      → Sealed F c (or_else (find_row F row.id updates) row)
  row_or row updates r h = elim (Option-cases (find_row F row.id updates)) [
    | inl e ↦ rw e r
    | inr (s, e) ↦ rw e ((found F (Sealed F c) row.id updates s e h).0)
  ]

  with_progress :
      (s : Signal F) (p : Option (PriceProgress F))
      → Sealed F c s
      → Sealed F c (record s { progress = p })
  with_progress s p (inl e) = inl e
  with_progress s p (inr k) = inr (record {
    id = k.id;
    state = k.state;
    confirmed_at = k.confirmed_at;
    confirmed_through = k.confirmed_through;
    frozen_high = k.frozen_high;
    frozen_low = k.frozen_low;
    repair = k.repair;
  })

module _ (F : Floats) (tail : Signal F → Bars × Candles F) (c : Signal F)
    (closed : is_open F c ≡ false) where
  follow_all-Sealed :
      (x : Inputs F) (rows updates : List (Signal F))
      → All (Sealed F c) rows
      → All (Sealed F c) updates
      → All (Sealed F c) (follow_all F tail x rows updates)
  unfolding follow_all follow
  follow_all-Sealed x [] updates h k = k
  follow_all-Sealed x (r ∷ rs) updates h k =
      let s = or_else (find_row F r.id updates) r in
      let p = progress_now F tail x s in
      let q = row_or F c closed r updates h.0 k in
      follow_all-Sealed x rs (follow F tail x r updates) h.1 (
        if-split (λ (l : List (Signal F)). All (Sealed F c) l)
          (progress_terminal F s.progress || same_progress F x p s.progress) _ _ (λ e. k)
          (λ e.
            All-put F (Sealed F c) (record s { progress = some p }) updates
              (with_progress F c closed s (some p) q) k))

  put_rows-Sealed :
      (us rows : List (Signal F))
      → All (Sealed F c) us
      → All (Sealed F c) rows
      → All (Sealed F c) (put_rows F tail us rows)
  unfolding put_rows
  put_rows-Sealed [] rows h k = k
  put_rows-Sealed (u ∷ us) rows h k =
      put_rows-Sealed us (put_row F u rows) h.1 (All-put F (Sealed F c) u rows h.0 k)

  lifecycle-Sealed :
      (x : Inputs F) (a : String) (rows : List (Signal F))
      → All (Sealed F c) rows
      → All (Sealed F c) (lifecycle F tail x a rows)
  unfolding lifecycle open_signals
  lifecycle-Sealed x a rows h =
      let q = Sealed F c in
      let chosen = All-sort F q _ _ (All-select F q _ rows h) in
      let followed = All-take F q 512 _ (All-sort F q _ _ (All-select F q _ rows h)) in
      let is_open_row : Signal F → Type 0 = λ s. is_open F s ≡ true in
      let open_ones =
        All-take F is_open_row 512 _
          (All-sort F is_open_row _ _ (open-select F c closed (λ s. str_eq s.asset a) rows)) in
      put_rows-Sealed _ rows
        (follow_all-Sealed x (followed_signals F a rows) _ followed
          (track_all-Sealed F c closed x _ (All-take F q 512 _ chosen) open_ones))
        h

  put_some :
      (id : String) (u : Signal F) (rows : List (Signal F))
      → is_some (find_row F id rows) ≡ true
      → is_some (find_row F id (put_row F u rows)) ≡ true
  unfolding find_row put_row
  put_some id u [] h = cc
  put_some id u (s ∷ ss) h = elim (Bool-cases (str_eq s.id u.id)) [
    | inl e ↦ elim (Bool-cases (str_eq s.id id)) [
      | inl g ↦ rw (e, subst (λ v. str_eq v id ≡ true) ((eq_iff s.id u.id).0 e) g) refl
      | inr g ↦ rw (e, subst (λ v. str_eq v id ≡ false) ((eq_iff s.id u.id).0 e) g) (rw g at h)
    ]
    | inr e ↦ elim (Bool-cases (str_eq s.id id)) [
      | inl g ↦ simp (e, g)
      | inr g ↦ rw (e, g) (put_some id u ss (rw g at h))
    ]
  ]

  put_rows_some :
      (id : String) (us rows : List (Signal F))
      → is_some (find_row F id rows) ≡ true
      → is_some (find_row F id (put_rows F tail us rows)) ≡ true
  unfolding put_rows
  put_rows_some id [] rows h = h
  put_rows_some id (u ∷ us) rows h = put_rows_some id us (put_row F u rows) (put_some id u rows h)

  lifecycles-Sealed :
      (xs : List (Inputs F × String)) (rows : List (Signal F))
      → All (Sealed F c) rows
      → is_some (find_row F c.id rows) ≡ true
      → All (Sealed F c) (lifecycles F tail xs rows)
        × (is_some (find_row F c.id (lifecycles F tail xs rows)) ≡ true)
  unfolding lifecycles lifecycle
  lifecycles-Sealed [] rows h k = (h, k)
  lifecycles-Sealed ((x, a) ∷ xs) rows h k =
      lifecycles-Sealed xs (lifecycle F tail x a rows) (lifecycle-Sealed x a rows h) (
        put_rows_some c.id
          (follow_all F tail x (followed_signals F a rows) (track_all F x (open_signals F a rows)))
          rows k)

module _ (F : Floats) where
  -- A signal that is not open, so confirmed or expired, in rows with no other of its id, is still
  -- there after any ticks, of any asset and with any bars, prices and clock: with the state, the time
  -- and the data's end of its confirmation, the frozen range and the repair note it closed with.
  pub lifecycles_closed :
      (tail : Signal F → Bars × Candles F) (xs : List (Inputs F × String)) (rows : List (Signal F))
      (c : Signal F)
      → is_open F c ≡ false
      → find_row F c.id rows ≡ some c
      → All (Sealed F c) rows
      → (s : Signal F) × (find_row F c.id (lifecycles F tail xs rows) ≡ some s) × SameCore F c s
  lifecycles_closed tail xs rows c closed here unique =
      let k = lifecycles-Sealed F tail c closed xs rows unique (rw here) in
      elim (Option-cases (find_row F c.id (lifecycles F tail xs rows))) [
        | inl e ↦ let n = rw e at k.1 in cc
        | inr (s, e) ↦
            let q = found F (Sealed F c) c.id (lifecycles F tail xs rows) s e k.0 in
            (s, e, Sealed-core F c s q.0 q.1)
      ]
