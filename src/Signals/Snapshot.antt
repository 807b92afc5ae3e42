-- ===== src/Signals/Snapshot.antt =====
-- The multifactor snapshot (internal/datahub/multifactor.go, multifactor_context.go): windows of flow,
-- the core checks of a direction, and `explain`. Texts, versions and scopes are left out, of a check
-- is kept whether it passes, and of a piece of evidence its factor and state. The map `Spot` is a
-- field per window. The derivatives' context is an input.
pub mod Explain
use tidal_crypto_intelligenc.Base.{
  ℕ, zero, suc, ◌+◌, ◌-◌, ◌*◌, ◌/◌, Bool, true, false, not, ◌&&◌, ◌||◌, ltb, leb, if◌then◌else◌,
  Option, none, some, List, [], ◌∷◌, String, str_eq, is_none, is_some, minute, hour, unix,
}
use tidal_crypto_intelligenc.Base.Integers.{ℤ, pos, negsuc, ◌+ℤ◌, is_pos}
use tidal_crypto_intelligenc.Study.Prices.{
  Floats, Candle, Candles, five_minutes, candle_bounds, price_cross,
}
use tidal_crypto_intelligenc.Signals.{
  FlowBar, Bars, net, signed, or_else, if_some, bar_before, sum_bars,
}
use tidal_crypto_intelligenc.Signals.Baseline.{
  times, steps, counted, SignalBaseline, DirectionThreshold, DirectionalBaseline,
}
use tidal_crypto_intelligenc.Signals.Conditions.{share, hourly_atr, followed, bar_toward}

module _ (F : Floats) where
  open F use {Float, nought, less, at_least, of_int, hundredths, sub, mul, div}

  pub record FlowWindow : Type 0 where
    pub minutes : ℕ
    pub from : ℕ
    pub to : ℕ
    pub coverage : Float
    pub net : Option ℤ
    pub buy : Option ℤ
    pub sell : Option ℤ
    pub volume : Option ℤ
    pub buy_share : Option Float
    pub sell_share : Option Float
    pub volume_ratio : Option Float

  abbrev pub hundred : Float
  hundred = of_int (pos 100)

  abbrev pub filled : FlowWindow → Float → FlowBar × Bool → FlowWindow
  filled w median (b, ok) =
      let volume = b.buy +ℤ b.sell in
      let traded = is_pos volume in
      let s = share F b in
      if ok
      then record w {
        net = some (tidal_crypto_intelligenc.Signals.net b);
        buy = some b.buy;
        sell = some b.sell;
        volume = some volume;
        buy_share = if traded then some (mul s hundred) else none;
        sell_share = if traded then some (mul (sub (of_int (pos 1)) s) hundred) else none;
        volume_ratio = if less nought median then some (div (of_int volume) median) else none;
      }
      else w

  -- `flowWindow`.
  unfoldable pub flow_window : Bars → ℕ → ℕ → Float → FlowWindow
  unfolding share sum_bars
  flow_window bars end minutes median =
      let from = end - minutes * minute in
      let count = counted bars (times (steps from end) from) in
      filled
        (record {
          minutes = minutes;
          from = from;
          to = end;
          coverage = div (of_int (pos count)) (of_int (pos (minutes / 5)));
          net = none;
          buy = none;
          sell = none;
          volume = none;
          buy_share = none;
          sell_share = none;
          volume_ratio = none;
        })
        median (sum_bars bars end (minutes / 5))

  pub record FlowAssessment : Type 0 where
    pub direction : String
    pub fast : Bool
    pub sustained : Bool
    pub large : Bool
    pub supported : Bool
    pub fast_checks : List Bool
    pub sustained_checks : List Bool

  -- `pattern`.
  unfoldable pub pattern : FlowAssessment → String
  pattern a =
      if a.fast && a.sustained
      then "fast_and_sustained"
      else if a.sustained
      then "sustained"
      else if a.fast
      then "fast"
      else ""

  pub record PriceContext : Type 0 where
    pub following_buy : Bool
    pub following_sell : Bool
    pub close : Option Float
    pub return_1h : Option Float
    pub prior_atr : Option Float
    pub displacement_atr : Option Float
    pub high : Option Float
    pub low : Option Float

  -- `Spot` and `Quarters`.
  pub record Windows : Type 0 where
    pub spot5 : FlowWindow
    pub spot15 : FlowWindow
    pub spot30 : FlowWindow
    pub spot60 : FlowWindow
    pub spot240 : FlowWindow
    pub quarters : List FlowWindow
    pub hours : List FlowWindow

  -- The threshold of the side, if the baseline is directional.
  abbrev pub threshold : SignalBaseline F → String → DirectionThreshold F
  threshold b side =
      if_some b.directional
        (record {
          fast_samples = 0;
          hour_samples = 0;
          fast_p95 = none;
          hour_p90 = none;
          hour_p95 = none;
        })
        (λ d. if str_eq side "sell" then d.sell else d.buy)

  -- `check`.
  abbrev pub check : Option Float → Option Float → Bool → Bool
  check actual required known =
      known && if_some actual false (λ a. if_some required false (λ r. at_least a r))

  abbrev pub net_toward : String → FlowWindow → Option Float
  net_toward side w = if_some w.net none (λ n. some (of_int (signed side n)))

  abbrev pub share_toward : String → FlowWindow → Option Float
  share_toward side w = if str_eq side "sell" then w.sell_share else w.buy_share

  abbrev pub is_toward : String → FlowWindow → Bool
  is_toward side w = if_some w.net false (λ n. is_pos (signed side n))

  abbrev pub one : Bool → ℕ
  one b = if b then 1 else 0

  abbrev pub count_toward : String → List FlowWindow → ℕ
  count_toward side [] = 0
  count_toward side (w ∷ ws) = one (is_toward side w) + count_toward side ws

  abbrev pub all_of : List Bool → Bool
  all_of [] = true
  all_of (b ∷ bs) = b && all_of bs

  abbrev pub literal : ℕ → Option Float
  literal n = some (of_int (pos n))

  -- `coreAssessment`.
  unfoldable pub core_assessment : SignalBaseline F → Windows → ℕ → String → Bars → FlowAssessment
  core_assessment baseline w through side bars =
      let v15 = w.spot15 in
      let v60 = w.spot60 in
      let th = threshold baseline side in
      let consecutive =
        one (bar_toward bars through side 1)
        + one (bar_toward bars through side 2)
        + one (bar_toward bars through side 3) in
      let quarters = count_toward side w.quarters in
      let fast =
        baseline.valid
        ∷ check (net_toward side v15) (literal 1000000000) true
        ∷ check (net_toward side v15) th.fast_p95 baseline.valid
        ∷ check v15.volume_ratio (some (hundredths 150)) true
        ∷ check (share_toward side v15) (literal 55) true
        ∷ check (literal consecutive) (literal 3) (is_some v15.net)
        ∷ is_toward side v60
        ∷ [] in
      let sustained =
        baseline.valid
        ∷ check (net_toward side v60) (literal 3000000000) true
        ∷ check (net_toward side v60) th.hour_p90 baseline.valid
        ∷ check v60.volume_ratio (some (hundredths 150)) true
        ∷ check (share_toward side v60) (literal 55) true
        ∷ check (literal quarters) (literal 3) (is_some v60.net)
        ∷ [] in
      record {
        direction = side;
        fast = all_of fast;
        sustained = all_of sustained;
        large =
            check (net_toward side v60) (literal 5000000000) true
            && check (net_toward side v60) th.hour_p95 true;
        supported = false;
        fast_checks = fast;
        sustained_checks = sustained;
      }

  pub record FlowSnapshot : Type 0 where
    pub at : ℕ
    pub data_through : ℕ
    pub fresh : Bool
    pub direction : String
    pub windows : Windows
    pub baseline : SignalBaseline F
    pub assessments : List FlowAssessment
    pub price : PriceContext
    pub evidence : List (String × String)

  abbrev pub median_of : SignalBaseline F → Float → Float
  median_of b m = if b.valid then m else nought

  abbrev pub windows_of : Bars → ℕ → SignalBaseline F → Windows
  windows_of bars end b =
      let quarter : ℕ → FlowWindow = λ i. flow_window bars (end - i * (15 * minute)) 15 nought in
      let of_hour : ℕ → FlowWindow = λ i. flow_window bars (end - i * hour) 60 nought in
      record {
        spot5 = flow_window bars end 5 nought;
        spot15 = flow_window bars end 15 (median_of b b.median15);
        spot30 = flow_window bars end 30 nought;
        spot60 = flow_window bars end 60 (median_of b b.median60);
        spot240 = flow_window bars end 240 nought;
        quarters = quarter 3 ∷ quarter 2 ∷ quarter 1 ∷ quarter 0 ∷ [];
        hours = of_hour 3 ∷ of_hour 2 ∷ of_hour 1 ∷ of_hour 0 ∷ [];
      }

  -- The return over the hour, and the displacement, from the closes at its ends.
  abbrev pub moved : Option Float → Float → Float → Option Float × Option Float
  moved atr prev last =
      if less nought prev
      then (
        some (mul (sub (div last prev) (of_int (pos 1))) hundred),
        if_some atr none (λ a. if less nought a then some (div (sub last prev) a) else none),
      )
      else (none, none)

  abbrev pub price_context : Candles F → ℕ → PriceContext
  price_context candles end =
      let atr = hourly_atr F candles (end - hour) in
      let bounds = candle_bounds F candles end in
      let m =
        if_some (candles (unix (end - 65 * minute))) (none, none)
          (λ p.
            if_some (candles (unix (end - 5 * minute))) (none, none)
              (λ l. moved atr p.close l.close)) in
      record {
        following_buy = followed F candles "buy" end 48;
        following_sell = followed F candles "sell" end 48;
        close =
            if_some bounds none
              (λ b. if_some (candles (unix (end - five_minutes))) none (λ c. some c.close));
        return_1h = m.0;
        prior_atr = atr;
        displacement_atr = m.1;
        high = if_some bounds none (λ b. some b.0);
        low = if_some bounds none (λ b. some b.1);
      }

  -- `buildFlowSnapshot`, with no context yet.
  unfoldable pub build_flow_snapshot :
      Bars → Candles F → ℕ → ℕ → SignalBaseline F → Bool → FlowSnapshot
  unfolding flow_window core_assessment hourly_atr followed
  build_flow_snapshot bars candles end now baseline fresh =
      let w = windows_of bars end baseline in
      record {
        at = now;
        data_through = end;
        fresh = fresh;
        direction = "";
        windows = w;
        baseline = baseline;
        assessments =
            core_assessment baseline w end "buy" bars
            ∷ core_assessment baseline w end "sell" bars
            ∷ [];
        price = price_context candles end;
        evidence = [];
      }
