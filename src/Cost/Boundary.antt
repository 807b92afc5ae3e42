-- ===== src/Cost/Boundary.antt =====
-- The boundary of a case is frozen.
use tidal_crypto_intelligenc.Base.{
  ℕ, ◌+◌, ◌≡◌, refl, inl, inr, ◌∙◌, Bool, not, ◌||◌, leb, ltb, ◌==◌, Option, none, some, String,
  arith, Bool-cases, if-split,
}
use tidal_crypto_intelligenc.Paper.Decimal.{DecimalOps}
use tidal_crypto_intelligenc.Cost.{Price, Digests, close_of, Case}
use tidal_crypto_intelligenc.Cost.Advance.{
  is_confirmed, is_active, overdue, track, discover, noted, observe, meet_price, advance_case,
}

module _ (D : DecimalOps) (dec : String → D.Decimal) (H : Digests) where
  -- What was frozen with the case.
  pub record Frozen (c d : Case D) : Type 0 where
    pub direction : d.direction ≡ c.direction
    pub boundary : d.boundary ≡ c.boundary
    pub from : d.from ≡ c.from
    pub through : d.through ≡ c.through
    pub zone : d.zone ≡ c.zone
    pub group : d.group ≡ c.group
    pub method : d.method ≡ c.method
    pub buffer : d.buffer ≡ c.buffer
    pub legacy : d.legacy ≡ c.legacy

  Frozen-refl : (c : Case D) → Frozen c c
  Frozen-refl c = record {
    direction = refl;
    boundary = refl;
    from = refl;
    through = refl;
    zone = refl;
    group = refl;
    method = refl;
    buffer = refl;
    legacy = refl;
  }

  track-Frozen : (c : Case D) (p : Price) (now : ℕ) → Frozen c (track D dec H c p now).0
  unfolding track
  track-Frozen c p now = record {
    direction = ground arith;
    boundary = ground arith;
    from = ground arith;
    through = ground arith;
    zone = ground arith;
    group = ground arith;
    method = ground arith;
    buffer = ground arith;
    legacy = ground arith;
  }

  discover-Frozen :
      (c : Case D) (p : Price) (consecutive : Bool) (now : ℕ)
      → Frozen c (discover D dec H c p consecutive now).0
  unfolding discover
  discover-Frozen c p consecutive now = record {
    direction = ground arith;
    boundary = ground arith;
    from = ground arith;
    through = ground arith;
    zone = ground arith;
    group = ground arith;
    method = ground arith;
    buffer = ground arith;
    legacy = ground arith;
  }

  observe-Frozen : (c : Case D) (p : Price) (now : ℕ) → Frozen c (observe D dec H c p now).0
  unfolding observe
  observe-Frozen c p now =
      let next = noted D dec H c p (c.last_date + 1 == p.date) in
      if-split (λ r. Frozen c r.0) (is_confirmed c.phase) (track D dec H next p now)
        (discover D dec H next p (c.last_date + 1 == p.date) now)
        (λ e. after next (track-Frozen next p now) (record {
          direction = refl;
          boundary = refl;
          from = refl;
          through = refl;
          zone = refl;
          group = refl;
          method = refl;
          buffer = refl;
          legacy = refl;
        }))
        (λ e. after next (discover-Frozen next p (c.last_date + 1 == p.date) now) (record {
          direction = refl;
          boundary = refl;
          from = refl;
          through = refl;
          zone = refl;
          group = refl;
          method = refl;
          buffer = refl;
          legacy = refl;
        }))
    where
      after : {d : Case D} (b : Case D) → Frozen b d → Frozen c b → Frozen c d
      after b h g = record {
        direction = h.direction ∙ g.direction;
        boundary = h.boundary ∙ g.boundary;
        from = h.from ∙ g.from;
        through = h.through ∙ g.through;
        zone = h.zone ∙ g.zone;
        group = h.group ∙ g.group;
        method = h.method ∙ g.method;
        buffer = h.buffer ∙ g.buffer;
        legacy = h.legacy ∙ g.legacy;
      }

  meet_price-Frozen :
      (c : Case D) (p : Option Price) (expected now : ℕ)
      → Frozen c (meet_price D dec H c p expected now).0
  meet_price-Frozen c none expected now = record {
    direction = refl;
    boundary = refl;
    from = refl;
    through = refl;
    zone = refl;
    group = refl;
    method = refl;
    buffer = refl;
    legacy = refl;
  }
  meet_price-Frozen c (some p) expected now =
      elim (Bool-cases (
        not (p.date == expected)
        || not (ltb c.frozen_at (close_of p.date))
        || leb p.date c.last_date)) [
          | inl e ↦ rw e (record {
            direction = refl;
            boundary = refl;
            from = refl;
            through = refl;
            zone = refl;
            group = refl;
            method = refl;
            buffer = refl;
            legacy = refl;
          })
          | inr e ↦ rw e (observe-Frozen c p now)
        ]

  pub advance_case-Frozen :
      (c : Case D) (p : Option Price) (expected now : ℕ)
      → Frozen c (advance_case D dec H c p expected now).0
  unfolding advance_case
  advance_case-Frozen c p expected now = elim (Bool-cases (is_active c.phase)) [
    | inr e ↦ rw e (Frozen-refl c)
    | inl e ↦ elim (Bool-cases (overdue D dec c expected)) [
      | inl o ↦
          rw (e, o)
            (record {
              direction = refl;
              boundary = refl;
              from = refl;
              through = refl;
              zone = refl;
              group = refl;
              method = refl;
              buffer = refl;
              legacy = refl;
            })
      | inr o ↦ rw (e, o) (meet_price-Frozen c p expected now)
    ]
  ]
