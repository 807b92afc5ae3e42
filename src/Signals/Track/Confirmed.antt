-- ===== src/Signals/Track/Confirmed.antt =====
-- What a confirmation rests on: two closes beyond the frozen range and flow in the same direction.
use mathlib.Core.Path.{subst}
use text.Mathlib.TextEquality.{eq_iff}
use tidal_crypto_intelligenc.Base.{
  ℕ, ◌+◌, ◌-◌, ◌*◌, ◌≤◌, ◌<◌, ◌≡◌, ◌⊎◌, refl, sym, ap, ◌∙◌, Bool, true, false, not, ◌&&◌, ◌||◌, ltb,
  leb, ltb→le, some, str_eq, minute, unix, arith, Bool-cases, Option-cases, some_inv, inl, inr,
}
use tidal_crypto_intelligenc.Base.Integers.{is_pos, is_negative}
use tidal_crypto_intelligenc.Study.Prices.{Floats, Candle, Candles, five_minutes}
use tidal_crypto_intelligenc.Signals.{net, sum_bars}
use tidal_crypto_intelligenc.Signals.Lifecycle.{Signal, confirms, beyond, reverse_bars}
use tidal_crypto_intelligenc.Signals.Track.{is_open, Inputs, turned, track}

module _ (F : Floats) where
  open F use {at_least}

  -- A close after the signal's data, beyond the line of its direction.
  pub record IsBeyond (s : Signal F) (candles : Candles F) (t : ℕ) : Type 0 where
    pub candle : Candle F
    pub known : candles (unix t) ≡ some candle
    pub after : s.data_through ≤ t
    pub above : (str_eq s.direction "buy" ≡ false) ⊎ (at_least s.frozen_high candle.close ≡ false)
    pub below : (str_eq s.direction "sell" ≡ false) ⊎ (at_least candle.close s.frozen_low ≡ false)

  pub record IsConfirmed (s : Signal F) (x : Inputs F) : Type 0 where
    pub fresh : x.fresh ≡ true
    pub new_bar : x.new_bar ≡ true
    pub in_time : x.now < s.expires
    pub until : x.end ≤ s.expires
    pub since : s.data_through + 10 * minute ≤ x.end
    pub complete : (sum_bars x.bars x.end 3).1 ≡ true
    pub bought :
        (str_eq s.direction "buy" ≡ false) ⊎ (is_pos (net (sum_bars x.bars x.end 3).0) ≡ true)
    pub sold :
        (str_eq s.direction "sell" ≡ false) ⊎ (is_negative (net (sum_bars x.bars x.end 3).0) ≡ true)
    pub last : IsBeyond s x.candles (x.end - 1 * five_minutes)
    pub before_last : IsBeyond s x.candles (x.end - 2 * five_minutes)

  and_four :
      (a b c d : Bool)
      → (a && b && c && d) ≡ true
      → (a ≡ true) × (b ≡ true) × (c ≡ true) × (d ≡ true)
  and_four a b c d h = ground arith

  and_three : (a b c : Bool) → (a && b && c) ≡ true → (a ≡ true) × (b ≡ true) × (c ≡ true)
  and_three a b c h = ground arith

  neither : (a b c : ℕ) → (ltb a b || ltb b c) ≡ false → (b ≤ a) × (c ≤ b)
  neither a b c h = ground arith

  leb→lt : (a b : ℕ) → leb a b ≡ false → b < a
  leb→lt a b h = ground arith

  way_buy :
      (buy sell up down : Bool)
      → not (buy && not up || sell && not down) ≡ true
      → (buy ≡ false) ⊎ (up ≡ true)
  way_buy buy sell up down h = ground arith

  way_sell :
      (buy sell up down : Bool)
      → not (buy && not up || sell && not down) ≡ true
      → (sell ≡ false) ⊎ (down ≡ true)
  way_sell buy sell up down h = ground arith

  clear : (p q : Bool) → (p && q) ≡ false → (p ≡ false) ⊎ (q ≡ false)
  clear p q h = ground arith

  beyond_sound :
      (s : Signal F) (candles : Candles F) (end i : ℕ)
      → beyond F s candles end i ≡ true
      → IsBeyond s candles (end - i * five_minutes)
  beyond_sound s candles end i h =
      let t = end - i * five_minutes in
      elim (Bool-cases (ltb t s.data_through)) [
        | inl e ↦ let n = rw e at h in cc
        | inr e ↦ elim (Option-cases (candles (unix t))) [
          | inl f ↦ let n = rw (e, f) at h in cc
          | inr (c, f) ↦
              let n = rw (e, f) at h in
              record {
                candle = c;
                known = f;
                after = ltb→le t s.data_through e;
                above =
                    clear (str_eq s.direction "buy") (at_least s.frozen_high c.close)
                      (ground arith);
                below =
                    clear (str_eq s.direction "sell") (at_least c.close s.frozen_low)
                      (ground arith);
              }
        ]
      ]

  open_unconfirmed :
      (s : Signal F) → is_open F s ≡ true → str_eq s.state "confirmed" ≡ true → true ≡ false
  open_unconfirmed s o c = let n = rw ((eq_iff s.state "confirmed").0 c) at o in cc

  confirms_sound :
      (s : Signal F) (x : Inputs F)
      → leb s.expires x.now ≡ false
      → (x.fresh && x.new_bar && not x.initialized) ≡ true
      → confirms F s x.bars x.candles x.end ≡ true
      → IsConfirmed s x
  unfolding confirms
  confirms_sound s x late ready h =
      elim (Bool-cases (ltb s.expires x.end || ltb x.end (s.data_through + 10 * minute))) [
        | inl e ↦ let n = rw e at h in cc
        | inr e ↦
            let n = rw e at h in
            let v = sum_bars x.bars x.end 3 in
            let (whole, way, one, two) = and_four v.1 _ _ _ n in
            let (known, bar, _) = and_three x.fresh x.new_bar _ ready in
            let (until, since) = neither s.expires x.end (s.data_through + 10 * minute) e in
            record {
              fresh = known;
              new_bar = bar;
              in_time = leb→lt s.expires x.now late;
              until = until;
              since = since;
              complete = whole;
              bought = way_buy (str_eq s.direction "buy") _ (is_pos (net v.0)) _ way;
              sold = way_sell _ (str_eq s.direction "sell") _ (is_negative (net v.0)) way;
              last = beyond_sound s x.candles x.end 1 one;
              before_last = beyond_sound s x.candles x.end 2 two;
            }
      ]

  turned-IsConfirmed :
      (x : Inputs F) (s : Signal F)
      → is_open F s ≡ true
      → str_eq (turned F x s).state "confirmed" ≡ true
      → IsConfirmed s x
        × ((turned F x s).confirmed_at ≡ some x.now)
        × ((turned F x s).confirmed_through ≡ some x.end)
  turned-IsConfirmed x s o c = elim (Bool-cases (leb s.expires x.now)) [
    | inl e ↦ let n = rw e at c in cc
    | inr e ↦ elim (Bool-cases (x.fresh && x.new_bar && not x.initialized)) [
      | inr f ↦ let n = rw (e, f) at c in let bad = open_unconfirmed s o n in cc
      | inl f ↦ elim (Bool-cases (confirms F s x.bars x.candles x.end)) [
        | inl g ↦ rw (e, f, g) (confirms_sound s x e f g, refl, refl)
        | inr g ↦ elim (Bool-cases (reverse_bars x.bars x.end s.direction)) [
          | inl r ↦ let n = rw (e, f, g, r) at c in cc
          | inr r ↦ let n = rw (e, f, g, r) at c in let bad = open_unconfirmed s o n in cc
        ]
      ]
    ]
  ]

  -- An open signal that a tick turns into a confirmed one was judged on fresh data and a new bar,
  -- before it expires and at least ten minutes of data after it began; the last three bars are
  -- there and their net flow is strictly in its direction; the two last closes are there, not
  -- earlier than the signal's data, and for a buy not at or below the high frozen when it began, for
  -- a sell not at or above the low. The confirmation bears the tick's time and the data's end.
  pub track-IsConfirmed :
      (x : Inputs F) (s u : Signal F)
      → is_open F s ≡ true
      → track F x s ≡ some u
      → str_eq u.state "confirmed" ≡ true
      → IsConfirmed s x × (u.confirmed_at ≡ some x.now) × (u.confirmed_through ≡ some x.end)
  unfolding track
  track-IsConfirmed x s u o e c = elim (Bool-cases (str_eq s.state (turned F x s).state)) [
    | inl g ↦ let n = rw g at e in cc
    | inr g ↦
        let n = some_inv (rw g at e) in
        let st = ap (λ (v : Signal F). v.state) n in
        let was = subst (λ z. str_eq z "confirmed" ≡ true) (sym st) c in
        let (k, noted, through) = turned-IsConfirmed x s o was in
        (
          k,
          ap (λ (v : Signal F). v.confirmed_at) (sym n) ∙ noted,
          ap (λ (v : Signal F). v.confirmed_through) (sym n) ∙ through,
        )
  ]
