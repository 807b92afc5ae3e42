-- ===== src/Study/Prices.antt =====
-- `priceEpisodes` (internal/datahub/signal_events.go) with `candleBounds` (signals.go): where the
-- price leaves the range of the four hours before. Floats are a parameter, of which the code uses the
-- order. The loop from `from` to `to` has a fuel.
pub mod Spacing
use tidal_crypto_intelligenc.Base.{
  ◌≡◌, ℕ, zero, suc, ◌+◌, ◌-◌, ◌*◌, ◌/◌, Bool, true, false, not, ◌&&◌, ◌||◌, ltb, ◌==◌,
  if◌then◌else◌, Option, none, some, List, [], ◌∷◌, ◌++◌, String, str_eq, hour, minute, unix,
}
use tidal_crypto_intelligenc.Base.Integers.{ℤ}
use tidal_crypto_intelligenc.Study.{Episode}

pub record Floats : Type 1 where
  pub Float : Type 0
  pub nought : Float
  pub infinity : Float
  pub less : Float → Float → Bool
  pub greater_of : Float → Float → Float  -- `max`
  pub smaller_of : Float → Float → Float  -- `min`
  pub at_least : Float → Float → Bool  -- `>=`
  pub of_int : ℤ → Float  -- `float64(n)`
  pub to_int : Float → ℕ  -- `int(f)`, where it is not negative
  pub hundredths : ℕ → Float  -- the literal n / 100
  pub add : Float → Float → Float
  pub sub : Float → Float → Float
  pub mul : Float → Float → Float
  pub div : Float → Float → Float

module _ (F : Floats) where
  open F use {Float, at_least, of_int}

  -- `int64` to floats, and their order apart from NaN and -0.
  pub record FloatLaws : Type 1 where
    pub Number : Float → Type 0
    pub of_int-Number : (n : ℤ) → Number (of_int n)
    pub total : (a b : Float) → Number a → Number b → at_least a b ≡ false → at_least b a ≡ true
    pub at_least_refl : (a : Float) → Number a → at_least a a ≡ true
    pub at_least_trans :
        (a b c : Float)
        → Number a
        → Number b
        → Number c
        → at_least a b ≡ true
        → at_least b c ≡ true
        → at_least a c ≡ true
    pub at_least_antisym :
        (a b : Float) → Number a → Number b → at_least a b ≡ true → at_least b a ≡ true → a ≡ b

-- When an episode of each direction was last seen; 0 is Go's zero time.
pub record Last : Type 0 where
  pub buy : ℕ
  pub sell : ℕ

abbrev pub last_of : Last → String → ℕ
last_of l side = if str_eq side "sell" then l.sell else l.buy

abbrev pub seen_at : String → ℕ → Last → Last
seen_at side t l = if str_eq side "sell" then record l { sell = t } else record l { buy = t }

abbrev pub five_minutes : ℕ
five_minutes = 5 * minute

module _ (F : Floats) where
  open F use {Float}

  pub record Candle : Type 0 where
    pub high : Float
    pub low : Float
    pub close : Float

  -- The candles by their times in seconds.
  abbrev pub Candles : Type 0
  Candles = ℕ → Option Candle

  abbrev pub bad : Candle → Bool
  bad v = not (F.less F.nought v.high) || not (F.less F.nought v.low)

  -- The candles from the `n`-th one before `to`.
  unfoldable pub bounds_from : Candles → ℕ → ℕ → Float → Float → Option (Float × Float)
  bounds_from c zero to high low = some (high, low)
  bounds_from c (suc n) to high low = elim (c (unix (to - suc n * five_minutes))) [
    | none ↦ none
    | some v ↦
        let rest = bounds_from c n to (F.greater_of high v.high) (F.smaller_of low v.low) in
        if bad v then none else rest
  ]

  -- `candleBounds`, without the last close.
  unfoldable pub candle_bounds : Candles → ℕ → Option (Float × Float)
  unfolding bounds_from
  candle_bounds c to = bounds_from c 48 to F.nought F.infinity

  abbrev pub crosses : String → Option (Float × Float) → Option Candle → Option Candle → Bool
  crosses side (some (high, low)) (some c1) (some c2) =
      if str_eq side "sell"
      then F.less c1.close low && F.less c2.close low
      else F.less high c1.close && F.less high c2.close
  crosses side _ _ _ = false

  -- `priceCross`.
  unfoldable pub price_cross : Candles → ℕ → String → Bool
  unfolding candle_bounds
  price_cross c t side =
      crosses side (candle_bounds c (t - 10 * minute)) (c (unix (t - 10 * minute)))
        (c (unix (t - 5 * minute)))

  module _ (event_id : String → ℕ → String) where
    abbrev pub episode_at : String → ℕ → Episode
    episode_at side t = record {
      id = event_id side (unix (t - 10 * minute));
      direction = side;
      start = t - 10 * minute;
      detected = t;
    }

    -- One direction at one instant.
    unfoldable pub visit : Candles → ℕ → String → Last → Last × List Episode
    unfolding price_cross
    visit c t side l =
        if not (last_of l side == 0) && ltb t (last_of l side + 4 * hour)
        then (l, [])
        else if price_cross c t side
        then (seen_at side t l, episode_at side t ∷ [])
        else (l, [])

    unfoldable pub episodes_from : Candles → ℕ → ℕ → ℕ → Last → List Episode
    unfolding visit
    episodes_from c zero t to l = []
    episodes_from c (suc n) t to l =
        let b = visit c t "buy" l in
        let s = visit c t "sell" b.0 in
        let rest = episodes_from c n (t + five_minutes) to s.0 in
        if ltb t to then b.1 ++ (s.1 ++ rest) else []

    -- `priceEpisodes`.
    unfoldable pub price_episodes : Candles → ℕ → ℕ → List Episode
    unfolding episodes_from
    price_episodes c from to =
        episodes_from c ((to - from) / five_minutes + 1) from to (record { buy = 0; sell = 0 })
