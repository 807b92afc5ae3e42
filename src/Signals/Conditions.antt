-- ===== src/Signals/Conditions.antt =====
-- The experiment's conditions (`signalCondition`, internal/datahub/signals.go) and the candidate's
-- (`candidateFeatures`, `candidateLevel`, signal_features.go), with `hourlyATR` (hourly_atr.go) and the
-- rest of `candleBounds`.
pub mod Sides
use tidal_crypto_intelligenc.Base.{
  ℕ, zero, suc, ◌+◌, ◌-◌, ◌*◌, Bool, true, false, not, ◌&&◌, ◌||◌, ltb, leb, if◌then◌else◌, Option,
  none, some, List, [], ◌∷◌, String, str_eq, is_none, is_some, minute, hour, unix, truncate,
}
use tidal_crypto_intelligenc.Base.Integers.{ℤ, pos, negsuc, ◌+ℤ◌, ltb_ℤ, is_pos, is_negative}
use tidal_crypto_intelligenc.Study.Prices.{
  Floats, Candle, Candles, five_minutes, candle_bounds, price_cross,
}
use tidal_crypto_intelligenc.Signals.{
  FlowBar, Bars, net, signed, or_else, if_some, bar_before, sum_bars,
}
use tidal_crypto_intelligenc.Signals.Baseline.{SignalBaseline}

abbrev pub toward : String → FlowBar × Bool → Bool
toward side (v, ok) = ok && is_pos (signed side (net v))

abbrev pub bar_toward : Bars → ℕ → String → ℕ → Bool
bar_toward bars end side i =
    if_some (bar_before bars end i) false (λ v. is_pos (signed side (net v)))

abbrev pub quarter : Bars → ℕ → ℕ → ℕ
quarter bars end i = if is_pos (net (sum_bars bars (end - i * (15 * minute)) 3).0) then 1 else 0

module _ (F : Floats) where
  open F use {
    Float, nought, infinity, less, at_least, greater_of, smaller_of, of_int, hundredths, add, sub,
    mul, div,
  }

  -- `Share`.
  unfoldable pub share : FlowBar → Float
  share b =
      let sum = b.buy +ℤ b.sell in if is_pos sum then div (of_int b.buy) (of_int sum) else nought

  abbrev pub share_of : String → FlowBar → Float
  share_of side v = if str_eq side "sell" then sub (of_int (pos 1)) (share v) else share v

  abbrev pub reaches : String → ℤ → Float → Float → Bool
  reaches side n buy sell =
      if str_eq side "sell" then at_least sell (of_int n) else at_least (of_int n) buy

  abbrev pub volume : FlowBar → Float
  volume v = of_int (v.buy +ℤ v.sell)

  -- The two conditions of `signalCondition`.
  abbrev pub is_burst : Bars → ℕ → SignalBaseline F → String → Bool
  is_burst bars end baseline side =
      let v15 = (sum_bars bars end 3).0 in
      let consecutive =
        bar_toward bars end side 1 && bar_toward bars end side 2 && bar_toward bars end side 3 in
      consecutive
      && reaches side (net v15) baseline.p95 baseline.p05
      && at_least (share_of side v15) (hundredths 55)
      && is_pos (signed side (net (sum_bars bars end 12).0))
      && at_least (volume v15) baseline.median15

  abbrev pub is_sustained : Bars → ℕ → SignalBaseline F → String → Bool
  is_sustained bars end baseline side =
      let v60 = sum_bars bars end 12 in
      let hours =
        toward side v60
        && toward side (sum_bars bars (end - hour) 12)
        && toward side (sum_bars bars (end - 2 * hour) 12) in
      hours
      && reaches side (net v60.0) baseline.p90 baseline.p10
      && at_least (share_of side (sum_bars bars end 36).0) (hundredths 55)
      && at_least (volume v60.0) baseline.median60

  -- `signalCondition`: the pattern, and whether the windows are complete.
  unfoldable pub signal_condition : Bars → ℕ → SignalBaseline F → String → String × Bool
  unfolding share sum_bars
  signal_condition bars end baseline side =
      if not baseline.valid
        || not ((sum_bars bars end 3).1 && (sum_bars bars end 12).1 && (sum_bars bars end 36).1)
      then ("", false)
      else if is_burst bars end baseline side
      then ("burst", true)
      else if is_sustained bars end baseline side
      then ("sustained", true)
      else ("", true)

  abbrev pub abs : Float → Float
  abs x = greater_of x (sub nought x)

  -- `hourlyATR`: the range and the last close of an hour's twelve candles, and the mean true range
  -- of fourteen hours.
  unfoldable pub hour_range :
      Candles F → ℕ → ℕ → Float × (Float × Float) → Option (Float × (Float × Float))
  hour_range c end zero r = some r
  hour_range c end (suc j) (hi, (lo, cl)) =
      if_some (c (unix (end - suc j * five_minutes))) none
        (λ v. hour_range c end j (greater_of hi v.high, (smaller_of lo v.low, v.close)))

  unfoldable pub true_ranges : Candles F → ℕ → ℕ → Float → Float → Option Float
  unfolding hour_range
  true_ranges c to zero last sum = some sum
  true_ranges c to (suc i) last sum =
      if_some (hour_range c (to - i * hour) 12 (nought, (infinity, nought))) none (λ r.
        let hi = r.0 in
        let lo = r.1.0 in
        let range = greater_of (sub hi lo) (greater_of (abs (sub hi last)) (abs (sub lo last))) in
        true_ranges c to i r.1.1 (add sum range))

  unfoldable pub hourly_atr : Candles F → ℕ → Option Float
  unfolding true_ranges
  hourly_atr c at =
      let to = truncate at hour in
      if_some (c (unix (to - 14 * hour - five_minutes))) none (λ prev.
        if_some (true_ranges c to 14 prev.close nought) none
          (λ sum. some (div sum (of_int (pos 14)))))

  -- The fields of `SignalFeatures` that the level reads, and the stage.
  pub record SignalFeatures : Type 0 where
    pub net_1h : ℤ
    pub net_4h : ℤ
    pub volume_1h : ℤ
    pub buy_share : Float
    pub volume_ratio : Float
    pub positive_quarters : ℕ
    pub return_1h : Float
    pub prior_atr : Float
    pub stage : String
    pub extended : Bool

  -- A price cross within the four hours, looked for from the oldest.
  unfoldable pub followed : Candles F → String → ℕ → ℕ → Bool
  followed c side end zero = price_cross F c end side
  followed c side end (suc n) =
      price_cross F c (end - suc n * five_minutes) side || followed c side end n

  abbrev pub features :
      Bars → Candles F → ℕ → SignalBaseline F → Float → Float → Float → SignalFeatures
  features bars candles end baseline prev last atr =
      let one = (sum_bars bars end 12).0 in
      record {
        net_1h = net one;
        net_4h = net (sum_bars bars end 48).0;
        volume_1h = one.buy +ℤ one.sell;
        buy_share = mul (share one) (of_int (pos 100));
        volume_ratio = div (volume one) baseline.median60;
        positive_quarters =
            quarter bars end 0 + quarter bars end 1 + quarter bars end 2 + quarter bars end 3;
        return_1h = mul (sub (div last prev) (of_int (pos 1))) (of_int (pos 100));
        prior_atr = atr;
        stage = if followed candles "buy" end 48 then "following" else "range";
        extended = less (mul (hundredths 150) atr) (sub last prev);
      }

  -- `candidateFeatures`.
  unfoldable pub candidate_features :
      Bars → Candles F → ℕ → SignalBaseline F → Option SignalFeatures
  unfolding share sum_bars hourly_atr followed
  candidate_features bars candles end baseline =
      if_some (hourly_atr candles (end - hour)) none (λ atr.
        if_some (candles (unix (end - hour - five_minutes))) none (λ prev.
          if_some (candles (unix (end - five_minutes))) none (λ last.
            if not (sum_bars bars end 12).1
              || not (sum_bars bars end 48).1
              || is_none (candle_bounds F candles end)
              || at_least nought prev.close
              || at_least nought atr
              || not baseline.valid
              || is_none baseline.p95_hour
              || at_least nought baseline.median60
            then none
            else some (features bars candles end baseline prev.close last.close atr))))

  abbrev pub leveled : SignalFeatures → SignalBaseline F → Float → ℤ → String
  leveled f b p95 strong =
      if not b.valid
        || ltb_ℤ f.net_1h (pos 3000000000)
        || less (of_int f.net_1h) b.p90
        || less f.buy_share (of_int (pos 55))
        || less f.volume_ratio (hundredths 150)
        || ltb f.positive_quarters 3
        || not (is_pos f.net_4h)
      then ""
      else if not f.extended && not (ltb_ℤ f.net_1h strong) && at_least (of_int f.net_1h) p95
      then "strong"
      else "observe"

  -- `candidateLevel`.
  unfoldable pub candidate_level : Option SignalFeatures → SignalBaseline F → ℤ → String
  candidate_level f b strong =
      if_some f "" (λ g. if_some b.p95_hour "" (λ p95. leveled g b p95 strong))
