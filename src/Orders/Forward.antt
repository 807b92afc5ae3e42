-- ===== src/Orders/Forward.antt =====
-- A tracked order only moves forward.
use tidal_crypto_intelligenc.Base.{
  ℕ, ◌≤◌, ◌<◌, ◌≡◌, refl, inl, inr, ◌∙◌, sym, Bool, true, false, not, ◌&&◌, ltb, Option, none, some,
  some_inv, ltb→lt, ltb→le, List, [], ◌∷◌, String, str_eq, arith, Bool-cases, All,
}
use mathlib.Core.Path.{subst}
use text.Mathlib.TextEquality.{eq_iff}
use tidal_crypto_intelligenc.Paper.Decimal.{DecimalOps}
use tidal_crypto_intelligenc.Orders.{
  LargeOrder, Tracked, Source, order_key, find_order, put_order, Tables, Outside, take_row,
  take_rows, ingest, outdated, next_row, new_row, limit,
}

-- Times do not go back, and a finished order that is active again has a newer fact.
pub record Onward (t u : Tracked) : Type 0 where
  pub fact : t.fact_at ≤ u.fact_at
  pub seen : t.seen ≤ u.seen
  pub finished : 1 < t.order.raw_state → u.order.raw_state ≤ 1 → t.fact_at < u.fact_at

Onward-refl : (t : Tracked) → Onward t t
Onward-refl t = record { fact = omega arith; seen = omega arith; finished = λ a b. omega arith }

abbrev Fits : Tracked → List Tracked → Type 0
Fits u ts = (old : Tracked) → find_order u.key ts ≡ some old → Onward old u

find-put :
    (t u : Tracked) (ts : List Tracked) (k : String)
    → find_order k ts ≡ some t
    → Fits u ts
    → (v : Tracked) × (find_order k (put_order u ts) ≡ some v) × Onward t v
unfolding find_order put_order
find-put t u [] k h o = cc
find-put t u (x ∷ xs) k h o = elim (Bool-cases (str_eq x.key u.key)) [
  | inl put ↦
      let same = (eq_iff x.key u.key).0 put in
      elim (Bool-cases (str_eq x.key k)) [
        | inl hit ↦ rw put (
          u,
          rw (rw same at hit) refl,
          subst (λ y. Onward y u) (some_inv (rw hit at h)) (o x (rw put refl)),
        )
        | inr miss ↦ rw put (t, rw (rw same at miss) (rw miss at h), Onward-refl t)
      ]
  | inr skip ↦ elim (Bool-cases (str_eq x.key k)) [
    | inl hit ↦
        rw skip (x, rw hit refl, subst (λ y. Onward y x) (some_inv (rw hit at h)) (Onward-refl x))
    | inr miss ↦
        let (v, at, on) = find-put t u xs k (rw miss at h) (λ old f. o old (rw skip f)) in
        rw skip (v, rw miss at, on)
  ]
]

Onward-trans : (t u v : Tracked) → Onward t u → Onward u v → Onward t v
Onward-trans t u v a b = record {
  fact = omega (arith, a.fact, b.fact);
  seen = omega (arith, a.seen, b.seen);
  finished = λ x y. (elim (Bool-cases (ltb 1 u.order.raw_state)) [
    | inl e ↦ omega (arith, b.finished (ltb→lt 1 u.order.raw_state e) y, a.fact)
    | inr e ↦ omega (arith, a.finished x (ltb→le 1 u.order.raw_state e), b.fact)
  ]);
}

module _ (D : DecimalOps) (dec : String → D.Decimal) (M : Outside D dec) (d : Source) where
  -- A row that is not outdated is onward of the one before.
  next_row-Onward :
      (old : Tracked) (r : LargeOrder) (fetched : ℕ)
      → 1 ≤ r.raw_state
      → outdated D dec M d old r fetched ≡ false
      → Onward old (next_row D dec M d old r fetched)
  next_row-Onward old r fetched p h = record {
    fact = ground arith;
    seen = ground arith;
    finished = λ a b. ground arith;
  }

  -- Where an order was, a later one of the same key is.
  abbrev Kept : Tables D dec → Tables D dec → Type 0
  Kept t u =
      (k : String) (old : Tracked)
      → find_order k t.tracked ≡ some old
      → (v : Tracked) × (find_order k u.tracked ≡ some v) × Onward old v

  Kept-refl : (t : Tables D dec) → Kept t t
  Kept-refl t k old h = (old, h, Onward-refl old)

  take_row-Kept :
      (room : Bool) (r : LargeOrder) (fetched : ℕ) (o : Option Tracked) (t : Tables D dec)
      → 1 ≤ r.raw_state
      → find_order (order_key d r) t.tracked ≡ o
      → Kept t (take_row D dec M d room r fetched o t)
  take_row-Kept false r fetched none t p e = Kept-refl t
  take_row-Kept true r fetched none t p e =
      λ k old h. find-put old (new_row D dec M d r fetched) t.tracked k h (λ x f. cc)
  take_row-Kept room r fetched (some x) t p e = elim (Bool-cases (outdated D dec M d x r fetched)) [
    | inl out ↦ rw out (Kept-refl t)
    | inr new ↦ rw new (λ k old h.
        find-put old (next_row D dec M d x r fetched) t.tracked k h (λ y f.
          subst (λ z. Onward z (next_row D dec M d x r fetched)) (some_inv (sym e ∙ f))
            (next_row-Onward x r fetched p new)))
  ]

  take_rows-Kept :
      (paused : Bool) (rs : List LargeOrder) (fetched bytes : ℕ) (t : Tables D dec)
      → All (λ r. 1 ≤ r.raw_state) rs
      → Kept t (take_rows D dec M d paused rs fetched bytes t)
  unfolding take_rows
  take_rows-Kept paused [] fetched bytes t p = Kept-refl t
  take_rows-Kept paused (r ∷ rs) fetched bytes t p = λ k old h.
      let o = find_order (order_key d r) t.tracked in
      let u = take_row D dec M d (not paused && ltb bytes limit) r fetched o t in
      let (v, at, on) =
        take_row-Kept (not paused && ltb bytes limit) r fetched o t p.0 refl k old h in
      let (w, at', on') = take_rows-Kept paused rs fetched (M.size u) u p.1 k v at in
      (w, at', Onward-trans old v w on on')

  -- An answer whose rows have a state, whatever the pause and the size of the store, drops no tracked
  -- order; the times of its facts and of its sight do not go back, and an order that was finished is
  -- active again only by a fact that is newer.
  pub ingest-Onward :
      (paused : Bool) (rs : List LargeOrder) (fetched : ℕ) (t : Tables D dec) (k : String)
      (old : Tracked)
      → All (λ r. 1 ≤ r.raw_state) rs
      → find_order k t.tracked ≡ some old
      → (v : Tracked) × (find_order k (ingest D dec M d paused rs fetched t).tracked ≡ some v)
        × Onward old v
  unfolding ingest
  ingest-Onward paused rs fetched t k old p h =
      take_rows-Kept paused rs fetched (M.size t) t p k old h
