-- ===== src/Signals/Lifecycle.antt =====
-- The life of a signal (internal/datahub/signals.go, multifactor.go, multifactor_engine.go,
-- progress_repair.go): `confirms`, `reverseBars`, `priceProgress`, the loop of `processSignals` over the
-- open signals and `updatePriceProgress`. Snapshots, texts and versions are left out.
pub mod Ends
use tidal_crypto_intelligenc.Base.{
  ℕ, zero, suc, ◌+◌, ◌-◌, ◌*◌, Bool, true, false, not, ◌&&◌, ◌||◌, ltb, leb, ◌==◌, if◌then◌else◌,
  Option, none, some, List, [], ◌∷◌, ◌++◌, String, str_eq, has_prefix, join, is_none, is_some,
  minute, hour, unix,
}
use tidal_crypto_intelligenc.Base.Integers.{ℤ, pos, negsuc, is_pos, is_negative}
use tidal_crypto_intelligenc.Study.Prices.{Floats, Candle, Candles, five_minutes}
use tidal_crypto_intelligenc.Signals.{
  FlowBar, Bars, net, signed, or_else, if_some, bar_before, sum_bars,
}

abbrev pub progress_grace : ℕ
progress_grace = 20 * minute

-- `minTime`.
abbrev pub min_time : ℕ → ℕ → ℕ
min_time a b = if ltb a b then a else b

-- `reverseBars`: the loop's body, and the two rounds.
abbrev pub against : Bars → ℕ → String → ℕ → Bool
against bars end side i =
    if_some (bar_before bars end i) false (λ v. is_negative (signed side (net v)))

unfoldable pub reverse_bars : Bars → ℕ → String → Bool
reverse_bars bars end side = against bars end side 1 && against bars end side 2

abbrev pub same_way : String → ℤ → Bool
same_way side n =
    not (str_eq side "buy" && not (is_pos n) || str_eq side "sell" && not (is_negative n))

abbrev pub one : Bool → ℕ
one b = if b then 1 else 0

abbrev pub judged : ℕ → Bool → String
judged outside same =
    if outside == 0
    then "reclaimed"
    else if not same
    then "flow_reversed"
    else if outside == 2
    then "holding"
    else "near_line"

-- The follow-up ends by the data's time, or by the deadline.
abbrev pub closing : ℕ → ℕ → ℕ → Bool → String → String
closing ends end now fresh status =
    if ltb now ends
    then status
    else if not fresh || ltb end ends || str_eq status "unknown"
    then if leb (ends + progress_grace) now then "ended_with_gap" else "awaiting_data"
    else join "completed_" status

module _ (F : Floats) where
  open F use {Float, nought, less, at_least, of_int, sub, mul}

  pub record PriceProgress : Type 0 where
    pub deadline : Option ℕ
    pub at : ℕ
    pub data_through : ℕ
    pub line : Float
    pub closes : List (Option Float)
    pub outside : ℕ
    pub flow_same : Option Bool
    pub status : String
    pub observation_ends : Option ℕ

  pub record LifecycleRepair : Type 0 where
    pub at : ℕ
    pub previous_state : String

  pub record Signal : Type 0 where
    pub id : String
    pub asset : String
    pub direction : String
    pub pattern : String
    pub state : String
    pub rules : String
    pub level : String
    pub at : ℕ
    pub data_through : ℕ
    pub updated : ℕ
    pub expires : ℕ
    pub confirmed_at : Option ℕ
    pub confirmed_through : Option ℕ
    pub frozen_high : Float
    pub frozen_low : Float
    pub repair : Option LifecycleRepair
    pub progress : Option PriceProgress

  -- `confirms`: the loop's body, and the whole.
  abbrev pub beyond : Signal → Candles F → ℕ → ℕ → Bool
  beyond s candles end i =
      let t = end - i * five_minutes in
      if ltb t s.data_through
      then false
      else if_some (candles (unix t)) false (λ c. not (
          str_eq s.direction "buy" && at_least s.frozen_high c.close
          || str_eq s.direction "sell" && at_least c.close s.frozen_low))

  unfoldable pub confirms : Signal → Bars → Candles F → ℕ → Bool
  unfolding sum_bars
  confirms s bars candles end =
      let v = sum_bars bars end 3 in
      if ltb s.expires end || ltb end (s.data_through + 10 * minute)
      then false
      else v.1 && same_way s.direction (net v.0) && beyond s candles end 1 && beyond s candles end 2

  -- `priceProgress`. The end, the line, one close of the loop, the status before the end of the
  -- observation, and the whole.
  abbrev pub progress_end : Signal → ℕ → ℕ
  progress_end s end = if_some s.confirmed_through end (λ c. min_time end (c + 4 * hour))

  abbrev pub line_of : Signal → Float
  line_of s = if str_eq s.direction "sell" then s.frozen_low else s.frozen_high

  abbrev pub close_at : Signal → Candles F → ℕ → ℕ → Option Float
  close_at s candles end i =
      let t = end - i * five_minutes in
      if_some (candles (unix t)) none (λ c. if ltb t s.data_through then none else some c.close)

  abbrev pub is_outside : Signal → Option Float → Bool
  is_outside s none = false
  is_outside s (some c) =
      let sign = if str_eq s.direction "sell" then negsuc 0 else pos 1 in
      less nought (mul (sub c (line_of s)) (of_int sign))

  abbrev pub flow_of : Signal → FlowBar × Bool → Option Bool
  flow_of s (v, ok) = if ok then some (is_pos (signed s.direction (net v))) else none

  abbrev pub known : Signal → ℕ → ℕ → Option Bool → String
  known s now outside none = "unknown"
  known s now outside (some same) =
      if is_some s.confirmed_at
      then judged outside same
      else if leb s.expires now
      then "expired"
      else "waiting"

  abbrev pub status_before :
      Signal → ℕ → ℕ → Bool → Option Float → Option Float → ℕ → Option Bool → String
  status_before s end now fresh c2 c1 outside same =
      if is_none s.confirmed_at && fresh && ltb end (s.data_through + 10 * minute)
      then "waiting"
      else if not fresh || is_none same || is_none c2 || is_none c1
      then "unknown"
      else known s now outside same

  abbrev pub recorded : Signal → String → String
  recorded s status =
      if is_some s.confirmed_at && is_none s.confirmed_through then "not_recorded" else status

  unfoldable pub price_progress : Signal → Bars → Candles F → ℕ → ℕ → Bool → PriceProgress
  unfolding sum_bars
  price_progress s bars candles last now fresh =
      let end = progress_end s last in
      let c2 = close_at s candles end 2 in
      let c1 = close_at s candles end 1 in
      let outside = one (is_outside s c2) + one (is_outside s c1) in
      let same = flow_of s (sum_bars bars end 3) in
      let ends = if_some s.confirmed_through none (λ c. some (c + 4 * hour)) in
      let status = recorded s (status_before s end now fresh c2 c1 outside same) in
      record {
        deadline = if_some ends none (λ e. some (e + progress_grace));
        at = now;
        data_through = end;
        line = line_of s;
        closes = c2 ∷ c1 ∷ [];
        outside = outside;
        flow_same = same;
        status = if_some ends status (λ e. closing e end now fresh status);
        observation_ends = ends;
      }

  -- `progressTerminal`.
  abbrev pub progress_terminal : Option PriceProgress → Bool
  progress_terminal none = false
  progress_terminal (some p) = has_prefix p.status "completed_" || str_eq p.status "ended_with_gap"
