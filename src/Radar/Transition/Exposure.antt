-- ===== src/Radar/Transition/Exposure.antt =====
-- What a fill opens, against what it carries over.
use tidal_crypto_intelligenc.Base.{
  ◌≡◌, inl, inr, true, false, not, ◌||◌, ◌==◌, if◌then◌else◌, arith, Bool-cases, ◌∙◌,
}
use tidal_crypto_intelligenc.Paper.Decimal.{DecimalOps, DecimalLaws, nil, is_nil}
use tidal_crypto_intelligenc.Radar.{abs, sign_of}
use tidal_crypto_intelligenc.Radar.Transition.{newly_open, opened_by}

module _ (D : DecimalOps) where
  open D use {Decimal, add, less}

  -- The part of a position that a fill leaves in place: of the same direction, the smaller one.
  abbrev pub carried : Decimal → Decimal → Decimal
  carried before after =
      if is_nil D before || not (sign_of D before == sign_of D after)
      then nil D
      else if less (abs D before) (abs D after)
      then abs D before
      else abs D after

module _ (D : DecimalOps) (L : DecimalLaws D) where
  open D use {Decimal, add, sub, neg, less}

  nil_add : (d : Decimal) → add (nil D) d ≡ d
  nil_add d = L.add_comm (nil D) d ∙ L.add_nil d

  -- A number below zero has its negation above.
  neg-positive : (a : Decimal) → less a (nil D) ≡ true → less (nil D) (neg a) ≡ true
  neg-positive a h = rw (L.add_neg a, nil_add (neg a)) at (L.less_add a (nil D) (neg a) h)

  not_both : (a b : Decimal) → less a b ≡ true → less b a ≡ false
  not_both a b h = elim (Bool-cases (less b a)) [
    | inr e ↦ e
    | inl e ↦ cc (L.less_trans a b a h e, L.less_irrefl a)
  ]

  pub abs-not_negative : (a : Decimal) → less (abs D a) (nil D) ≡ false
  abs-not_negative a = elim (Bool-cases (less a (nil D))) [
    | inl e ↦ rw e (not_both (nil D) (neg a) (neg-positive a e))
    | inr e ↦ rw e e
  ]

  sub-not_negative : (a b : Decimal) → less b a ≡ true → less (sub a b) (nil D) ≡ false
  sub-not_negative a b h = elim (Bool-cases (less (sub a b) (nil D))) [
    | inr e ↦ e
    | inl e ↦
        let below = rw (L.sub_add a b, nil_add b) at (L.less_add (sub a b) (nil D) b e) in
        cc (not_both b a h)
  ]

  -- What is opened is never negative.
  opened_by-not_negative :
      (before after : Decimal) → less (opened_by D before after) (nil D) ≡ false
  unfolding opened_by
  opened_by-not_negative before after = elim (Bool-cases (newly_open D before after)) [
    | inl e ↦ rw e (abs-not_negative after)
    | inr e ↦ elim (Bool-cases (less (abs D before) (abs D after))) [
      | inl f ↦ rw (e, f) (sub-not_negative (abs D after) (abs D before) f)
      | inr f ↦ rw (e, f) (L.less_irrefl (nil D))
    ]
  ]

  -- Neither newly open nor of one direction: the position is closed.
  closed_nil :
      (before after : Decimal)
      → is_nil D before ≡ false
      → newly_open D before after ≡ false
      → (sign_of D before == sign_of D after) ≡ false
      → abs D after ≡ nil D
  unfolding newly_open
  closed_nil before after b n s =
      let e : is_nil D after ≡ true = ground arith in
      rw ((L.equal_iff after (nil D)).0 e, L.less_irrefl (nil D))

  same_direction :
      (before after : Decimal)
      → is_nil D before ≡ false
      → (sign_of D before == sign_of D after) ≡ true
      → newly_open D before after ≡ false
  unfolding newly_open
  same_direction before after b s = rw (s, b) (ground arith)

  from_nil : (before after : Decimal) → is_nil D before ≡ true → newly_open D before after ≡ true
  unfolding newly_open
  from_nil before after b = rw b

  -- Every unit of the position after a fill was carried over from before or opened by the fill, and
  -- what is opened is never negative: reducing a position opens nothing, and crossing zero opens
  -- only what lies beyond it.
  pub opened_by-carried :
      (before after : Decimal)
      → (add (opened_by D before after) (carried D before after) ≡ abs D after)
        × (less (opened_by D before after) (nil D) ≡ false)
  unfolding opened_by
  opened_by-carried before after = (
    elim (Bool-cases (is_nil D before)) [
      | inl b ↦ rw (from_nil before after b, b) (L.add_nil (abs D after))
      | inr b ↦ elim (Bool-cases (sign_of D before == sign_of D after)) [
        | inl s ↦
            rw (same_direction before after b s, s, b)
              (elim (Bool-cases (less (abs D before) (abs D after))) [
                | inl f ↦ rw f (L.sub_add (abs D after) (abs D before))
                | inr f ↦ rw f (nil_add (abs D after))
              ])
        | inr s ↦ elim (Bool-cases (newly_open D before after)) [
          | inl n ↦ rw (n, s, b) (L.add_nil (abs D after))
          | inr n ↦
              rw (n, s, b, closed_nil before after b n s, abs-not_negative before)
                (L.add_nil (nil D))
        ]
      ]
    ],
    opened_by-not_negative before after,
  )
