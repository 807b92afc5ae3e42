-- ===== src/Cost/Confirmation/Runs.antt =====
-- A case over any number of days.
use tidal_crypto_intelligenc.Base.{
  ℕ, ◌+◌, ◌≡◌, refl, ◌⊎◌, inl, inr, sym, true, Option, none, some, List, [], ◌∷◌, ◌++◌, String, All,
}
use mathlib.Core.Path.{subst, fun_ext}
use tidal_crypto_intelligenc.Paper.Decimal.{DecimalOps}
use tidal_crypto_intelligenc.Cost.{Price, watching, confirmed, Event, Digests, Case}
use tidal_crypto_intelligenc.Cost.Advance.{beyond, advance_case}
use tidal_crypto_intelligenc.Cost.Boundary.{Frozen, advance_case-Frozen}
use tidal_crypto_intelligenc.Cost.Confirmation.{Standing, Stands, Known, Two, advance_case-Standing}

-- One call of `costAdvanceCase`.
pub record Day : Type 0 where
  pub price : Option Price
  pub expected : ℕ
  pub now : ℕ

-- The price came with one of the days.
abbrev pub Among : List Day → Price → Type 0
Among [] p = ⊥
Among (d ∷ ds) p = (d.price ≡ some p) ⊎ Among ds p

module _ (D : DecimalOps) (dec : String → D.Decimal) (H : Digests) where
  unfoldable pub follow : Case D → List Day → Case D × List Event
  unfolding advance_case
  follow c [] = (c, [])
  follow c (d ∷ ds) =
      let r = advance_case D dec H c d.price d.expected d.now in
      let s = follow r.0 ds in (s.0, r.1 ++ s.1)

  beyond-Frozen : (c d : Case D) → Frozen D dec H c d → beyond D dec d ≡ beyond D dec c
  unfolding beyond
  beyond-Frozen c d h = fun_ext (λ price. rw (h.direction, h.boundary) refl)

  module _ (P : Price → Type 0) where
    abbrev Heard : Day → Type 0
    Heard d = Known D dec H P d.price

    follow-Two :
        (c : Case D) (ds : List Day)
        → All Heard ds
        → Stands D dec H P c
        → (follow c ds).0.phase ≡ confirmed
        → Two D dec H P (beyond D dec c)
    unfolding follow
    follow-Two c [] h s e =
        subst (Standing D dec H P (beyond D dec c) c.from c.last_date c.count) e s
    follow-Two c (d ∷ ds) h s e =
        let r = (advance_case D dec H c d.price d.expected d.now).0 in
        let f = advance_case-Frozen D dec H c d.price d.expected d.now in
        let stands = advance_case-Standing D dec H P c d.price d.expected d.now h.0 s in
        let moved : Stands D dec H P r = (rw (beyond-Frozen c r f, f.from) stands) in
        subst (Two D dec H P) (beyond-Frozen c r f) (follow-Two r ds h.1 moved e)

    all-Heard : (ds : List Day) → ((p : Price) → Among ds p → P p) → All Heard ds
    all-Heard [] h = tt
    all-Heard (d ∷ ds) h = (heard d.price (λ p e. h p (inl e)), all-Heard ds (λ p m. h p (inr m)))
      where
        heard : (o : Option Price) → ((p : Price) → o ≡ some p → P p) → Known D dec H P o
        heard none g = tt
        heard (some p) g = g p refl

  -- A case that began without a count and is confirmed after any number of days had, among the
  -- prices of those days, two of days that follow each other, both beyond the boundary that was
  -- frozen with the case.
  pub follow-confirmed :
      (c : Case D) (ds : List Day)
      → c.phase ≡ watching
      → c.count ≡ 0
      → (follow c ds).0.phase ≡ confirmed
      → (p : Price) × (q : Price) × Among ds p
        × Among ds q
        × (p.date + 1 ≡ q.date)
        × (beyond D dec c p.value ≡ true)
        × (beyond D dec c q.value ≡ true)
  follow-confirmed c ds w z e =
      follow-Two (Among ds) c ds (all-Heard (Among ds) ds (λ p m. m))
        (subst (Standing D dec H (Among ds) (beyond D dec c) c.from c.last_date c.count) (sym w) z)
        e
