-- ===== src/Radar/Replay.antt =====
-- Fills that are delivered again change nothing.
use tidal_crypto_intelligenc.Base.{
  ◌+◌, ◌*◌, ◌≤◌, ◌≡◌, refl, ◌⊎◌, inl, inr, true, false, ltb, Option, none, some, some_inv, List, [],
  ◌∷◌, ◌++◌, arith, Bool-cases, Option-cases, second, All, ◌∙◌, sym, ap,
}
use text.Mathlib.TextPositions.{eq_refl}
use mathlib.Core.Path.{subst}
use tidal_crypto_intelligenc.Paper.Decimal.{DecimalOps}
use tidal_crypto_intelligenc.Radar.{Fill, radar_time, Reading, number}
use tidal_crypto_intelligenc.Radar.Transition.{Change, transition}
use tidal_crypto_intelligenc.Radar.Fills.{
  same_key, same_fill, find_fill, Chain, Surroundings, record_fill, ignored, meet, take_fill,
  take_fills, or_nil,
}

same_key_refl : (f : Fill) → same_key f f ≡ true
same_key_refl f = simp (eq_refl) (ground arith)

same_fill_refl : (f : Fill) → same_fill f f ≡ true
same_fill_refl f = simp (eq_refl) (ground arith)

find_fill-append :
    (f g old : Fill) (fs : List Fill)
    → find_fill f fs ≡ some old
    → find_fill f (fs ++ g ∷ []) ≡ some old
unfolding find_fill
find_fill-append f g old [] h = cc
find_fill-append f g old (e ∷ fs) h = elim (Bool-cases (same_key e f)) [
  | inl k ↦ rw k (rw k at h)
  | inr k ↦ rw k (find_fill-append f g old fs (rw k at h))
]

find_fill-append_self :
    (f : Fill) (fs : List Fill) → find_fill f fs ≡ none → find_fill f (fs ++ f ∷ []) ≡ some f
unfolding find_fill
find_fill-append_self f [] h = rw (same_key_refl f)
find_fill-append_self f (e ∷ fs) h = elim (Bool-cases (same_key e f)) [
  | inl k ↦ cc (rw k at h)
  | inr k ↦ rw k (find_fill-append_self f fs (rw k at h))
]

module _ (D : DecimalOps) (R : Reading D) where
  fills-record_fill :
      (s : Surroundings D) (f : Fill) (c : Change D) (px : D.Decimal) (k : Chain D)
      → (record_fill D s f c px k).fills ≡ k.fills ++ f ∷ []
  unfolding record_fill
  fills-record_fill s f c px k = ground arith

  -- The fill is ignored, or it is good and its row is in the store.
  abbrev Met : Surroundings D → Fill → Chain D → Type 0
  Met s f k =
      (ignored D R s.now f ≡ true)
      ⊎ ((ltb (s.now + 5 * second) (radar_time f.time) ≡ false)
          × ((c : Change D) × (transition D R f ≡ some c))
          × ((old : Fill) × (find_fill f k.fills ≡ some old) × (same_fill old f ≡ true)))

  -- What a round that did not fail leaves behind.
  take_fill-Met :
      (s : Surroundings D) (f : Fill) (k k' : Chain D) → take_fill D R s f k ≡ some k' → Met s f k'
  unfolding take_fill
  take_fill-Met s f k k' h = elim (Bool-cases (ignored D R s.now f)) [
    | inl i ↦ inl i
    | inr i ↦ elim (Option-cases (transition D R f)) [
      | inl t ↦ cc (rw (i, t) at h)
      | inr (c, t) ↦ elim (Bool-cases (ltb (s.now + 5 * second) (radar_time f.time))) [
        | inl late ↦ cc (rw (i, t, late) at h)
        | inr late ↦ elim (Option-cases (find_fill f k.fills)) [
          | inl new ↦
              let e = some_inv (rw (i, t, late, new) at h) in
              inr (
                late,
                (c, t),
                (
                  f,
                  subst (λ (x : Chain D). find_fill f x.fills ≡ some f) e
                      (rw (fills-record_fill s f c (or_nil D (number D R f.px)) k)
                        (find_fill-append_self f k.fills new)),
                  same_fill_refl f,
                ),
              )
          | inr (old, was) ↦ elim (Bool-cases (same_fill old f)) [
            | inl same ↦
                let e = some_inv (rw (i, t, late, was, same) at h) in
                inr (
                  late,
                  (c, t),
                  (old, subst (λ (x : Chain D). find_fill f x.fills ≡ some old) e was, same),
                )
            | inr same ↦ cc (rw (i, t, late, was, same) at h)
          ]
        ]
      ]
    ]
  ]

  meet_rows :
      (s : Surroundings D) (g : Fill) (c : Change D) (o : Option Fill) (k k' : Chain D)
      → meet D R s g c o k ≡ some k'
      → (k'.fills ≡ k.fills) ⊎ (k'.fills ≡ k.fills ++ g ∷ [])
  meet_rows s g c (some old) k k' h = elim (Bool-cases (same_fill old g)) [
    | inl e ↦ inl (ap (λ (x : Chain D). x.fills) (sym (some_inv (rw e at h))))
    | inr e ↦ cc (rw e at h)
  ]
  meet_rows s g c none k k' h = inr (
      ap (λ (x : Chain D). x.fills) (sym (some_inv h))
      ∙ fills-record_fill s g c (or_nil D (number D R g.px)) k)

  -- A round adds its fill's row, or none.
  take_fill_rows :
      (s : Surroundings D) (g : Fill) (k k' : Chain D)
      → take_fill D R s g k ≡ some k'
      → (k'.fills ≡ k.fills) ⊎ (k'.fills ≡ k.fills ++ g ∷ [])
  unfolding take_fill
  take_fill_rows s g k k' h = elim (Bool-cases (ignored D R s.now g)) [
    | inl i ↦ inl (ap (λ (x : Chain D). x.fills) (sym (some_inv (rw i at h))))
    | inr i ↦ elim (Option-cases (transition D R g)) [
      | inl t ↦ cc (rw (i, t) at h)
      | inr (c, t) ↦ elim (Bool-cases (ltb (s.now + 5 * second) (radar_time g.time))) [
        | inl late ↦ cc (rw (i, t, late) at h)
        | inr late ↦ meet_rows s g c (find_fill g k.fills) k k' (rw (i, t, late) at h)
      ]
    ]
  ]

  take_fill-Met_other :
      (s : Surroundings D) (f g : Fill) (k k' : Chain D)
      → take_fill D R s g k ≡ some k'
      → Met s f k
      → Met s f k'
  take_fill-Met_other s f g k k' h (inl i) = inl i
  take_fill-Met_other s f g k k' h (inr (late, t, (old, was, same))) =
      elim (take_fill_rows s g k k' h) [
        | inl e ↦ inr (late, t, (old, rw e was, same))
        | inr e ↦ inr (late, t, (old, rw e (find_fill-append f g old k.fills was), same))
      ]

  take_fills-Met_other :
      (s : Surroundings D) (f : Fill) (fs : List Fill) (k k' : Chain D)
      → take_fills D R s fs k ≡ some k'
      → Met s f k
      → Met s f k'
  unfolding take_fills
  take_fills-Met_other s f [] k k' h m = subst (Met s f) (some_inv h) m
  take_fills-Met_other s f (g ∷ gs) k k' h m = elim (Option-cases (take_fill D R s g k)) [
    | inl e ↦ cc (rw e at h)
    | inr (k1, e) ↦
        take_fills-Met_other s f gs k1 k' (rw e at h) (take_fill-Met_other s f g k k1 e m)
  ]

  take_fills-Met :
      (s : Surroundings D) (fs : List Fill) (k k' : Chain D)
      → take_fills D R s fs k ≡ some k'
      → All (λ f. Met s f k') fs
  unfolding take_fills
  take_fills-Met s [] k k' h = tt
  take_fills-Met s (g ∷ gs) k k' h = elim (Option-cases (take_fill D R s g k)) [
    | inl e ↦ cc (rw e at h)
    | inr (k1, e) ↦ (
      take_fills-Met_other s g gs k1 k' (rw e at h) (take_fill-Met s g k k1 e),
      take_fills-Met s gs k1 k' (rw e at h),
    )
  ]

  -- A fill that was met is passed over from then on.
  take_fill_again :
      (s s' : Surroundings D) (f : Fill) (k : Chain D)
      → s.now ≤ s'.now
      → Met s f k
      → take_fill D R s' f k ≡ some k
  unfolding take_fill
  take_fill_again s s' f k h (inl i) =
      let still : ignored D R s'.now f ≡ true = ground arith in rw still
  take_fill_again s s' f k h (inr (late, (c, t), (old, was, same))) =
      let ready : ltb (s'.now + 5 * second) (radar_time f.time) ≡ false = ground arith in
      elim (Bool-cases (ignored D R s'.now f)) [
        | inl i ↦ rw i
        | inr i ↦ rw (i, t, ready, was, same)
      ]

  take_all_again :
      (s s' : Surroundings D) (fs : List Fill) (k : Chain D)
      → s.now ≤ s'.now
      → All (λ f. Met s f k) fs
      → take_fills D R s' fs k ≡ some k
  unfolding take_fills
  take_all_again s s' [] k h m = refl
  take_all_again s s' (f ∷ fs) k h m =
      rw (take_fill_again s s' f k h m.0) (take_all_again s s' fs k h m.1)

  -- Fills that were taken without an error and are delivered again, at the same time or later and
  -- whatever else has changed outside, change nothing: no position, episode, continuity or row.
  pub take_fills_again :
      (s s' : Surroundings D) (fs : List Fill) (k k' : Chain D)
      → s.now ≤ s'.now
      → take_fills D R s fs k ≡ some k'
      → take_fills D R s' fs k' ≡ some k'
  take_fills_again s s' fs k k' h e = take_all_again s s' fs k' h (take_fills-Met s fs k k' e)
