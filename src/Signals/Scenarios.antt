-- ===== src/Signals/Scenarios.antt =====
-- Concrete signals: rows of a minute, an hour of bars, a rise that is confirmed, and the ticks, commits
-- and follow-ups of it. Floats are natural numbers.
use tidal_crypto_intelligenc.Base.{
  ℕ, ◌+◌, ◌*◌, ◌/◌, ◌%◌, ◌≡◌, ◌-◌, refl, Bool, ltb, if◌then◌else◌, true, false, none, some, List,
  [], ◌∷◌, String, str_eq, All, minute, hour, unix, unix_epoch, arith, inr,
}
use tidal_crypto_intelligenc.Base.Integers.{pos}
use tidal_crypto_intelligenc.Study.Prices.{FloatLaws, Candles, five_minutes}
use tidal_crypto_intelligenc.Study.Scenarios.{numbers, dawn}
use tidal_crypto_intelligenc.Signals.{Observation, Bars}
use tidal_crypto_intelligenc.Signals.Accumulator.{flow_bars}
use tidal_crypto_intelligenc.Signals.Accumulator.Reference.{reference, flow_bars_sum}
use tidal_crypto_intelligenc.Signals.Baseline.{SignalBaseline, baseline_from_bars}
use tidal_crypto_intelligenc.Signals.Baseline.Rolling.{new_rolling_baseline, advance, result}
use tidal_crypto_intelligenc.Signals.Baseline.Rebuild.{advance_rebuilds}
use tidal_crypto_intelligenc.Signals.Conditions.{signal_condition}
use tidal_crypto_intelligenc.Signals.Conditions.Sides.{signal_condition_one_side}
use tidal_crypto_intelligenc.Signals.Lifecycle.{Signal, price_progress, progress_terminal}
use tidal_crypto_intelligenc.Signals.Lifecycle.Ends.{price_progress_ends}
use tidal_crypto_intelligenc.Signals.Track.{Inputs, track, find_row, lifecycles}
use tidal_crypto_intelligenc.Signals.Track.Closed.{SameCore, lifecycles_closed}
use tidal_crypto_intelligenc.Signals.Track.Confirmed.{IsConfirmed, track-IsConfirmed}
use tidal_crypto_intelligenc.Signals.Rearm.{Look, multifactor, gives}
use tidal_crypto_intelligenc.Signals.Rearm.Gap.{HasGap, gives-HasGap}
use tidal_crypto_intelligenc.Signals.Commit.{Tables, Terms, Update, multifactor_rules, commits}
use tidal_crypto_intelligenc.Signals.Commit.Once.{Grown, commits-Grown}
use tidal_crypto_intelligenc.Signals.Snapshot.{
  FlowAssessment, FlowSnapshot, build_flow_snapshot, core_assessment, flow_window,
}
use tidal_crypto_intelligenc.Signals.Snapshot.Explain.{
  DerivativeContext, FundingPoint, direction_of, explain, funding_warning,
}
use tidal_crypto_intelligenc.Signals.Snapshot.Explain.Support.{Explained, explain-Explained}

-- Five minutes of rows, each a minute.
abbrev row : ℕ → Observation
row i = record {
  observed_at = some (dawn + i * minute);
  fetched_at = dawn + hour;
  window_start = none;
  resolution = 60;
  quality = "valid";
  flow = some (record { buy = pos 300; sell = pos 100 });
}

abbrev rows : List Observation
rows = row 0 ∷ row 1 ∷ row 2 ∷ row 3 ∷ row 4 ∷ []

rows_fill :
    flow_bars rows 300 (unix dawn) ≡ some (record { at = dawn; buy = pos 1500; sell = pos 500 })
unfolding flow_bars
rows_fill = refl

flow_bars_sum_example : flow_bars rows 300 (unix dawn) ≡ reference rows 300 (unix dawn)
flow_bars_sum_example = flow_bars_sum rows 300 (unix dawn)

-- Bars of a net that rises with the time of day.
abbrev bars : Bars
bars s = some (record { at = unix_epoch; buy = pos (10 + s / 300 % 12); sell = pos 10 })

numbers_laws : FloatLaws numbers
numbers_laws = record {
  Number = λ a. Unit;
  of_int-Number = λ n. tt;
  total = λ a b x y h. ground arith;
  at_least_refl = λ a x. ground arith;
  at_least_trans = λ a b c x y z h k. ground arith;
  at_least_antisym = λ a b x y h k. ground arith;
}

advance_rebuilds_example :
    let start = new_rolling_baseline numbers bars dawn (dawn + 12 * five_minutes) in
    result numbers (advance numbers start (dawn + (12 + 2) * five_minutes)) dawn
    ≡ baseline_from_bars numbers bars
        (dawn + 2 * five_minutes)
        (dawn + (12 + 2) * five_minutes)
        dawn
advance_rebuilds_example = advance_rebuilds numbers numbers_laws bars dawn 12 2 dawn (omega arith)

-- A valid baseline that anything exceeds.
abbrev open_baseline : SignalBaseline numbers
open_baseline = record {
  directional = none;
  at = dawn;
  from = dawn;
  to = dawn;
  coverage = 1;
  dates = 30;
  valid = true;
  p95 = 1;
  p05 = 0;
  p90 = 1;
  p95_hour = some 1;
  p10 = 0;
  median15 = 1;
  median60 = 1;
}

abbrev strong_bars : Bars
strong_bars s = some (record { at = unix_epoch; buy = pos 900; sell = pos 100 })

buying_burst : str_eq (signal_condition numbers strong_bars dawn open_baseline "buy").0 "" ≡ false
unfolding signal_condition
buying_burst = refl

signal_condition_one_side_example :
    str_eq (signal_condition numbers strong_bars dawn open_baseline "sell").0 "" ≡ true
signal_condition_one_side_example =
    signal_condition_one_side numbers strong_bars dawn open_baseline buying_burst

-- A rise above 100, seen at dawn.
abbrev rise : Signal numbers
rise = record {
  id = "BTC-mf1-buy-1";
  asset = "BTC";
  direction = "buy";
  pattern = "fast";
  state = "anomaly";
  rules = multifactor_rules;
  level = "large";
  at = dawn;
  data_through = dawn;
  updated = dawn;
  expires = dawn + 4 * hour;
  confirmed_at = none;
  confirmed_through = none;
  frozen_high = 100;
  frozen_low = 90;
  repair = none;
  progress = none;
}

abbrev high_candles : Candles numbers
high_candles s = some (record { high = 110; low = 100; close = 110 })

-- A tick some minutes after dawn.
abbrev tick : ℕ → Inputs numbers
tick m = record {
  bars = strong_bars;
  candles = high_candles;
  end = dawn + m * minute;
  now = dawn + m * minute;
  fresh = true;
  new_bar = true;
  initialized = false;
}

abbrev confirmed_rise : Signal numbers
confirmed_rise = record rise {
  state = "confirmed";
  confirmed_at = some (dawn + 10 * minute);
  confirmed_through = some (dawn + 10 * minute);
  updated = dawn + 10 * minute;
  progress = some (
      price_progress numbers
        (record rise {
          state = "confirmed";
          confirmed_at = some (dawn + 10 * minute);
          confirmed_through = some (dawn + 10 * minute);
        })
        strong_bars high_candles (dawn + 10 * minute) (dawn + 10 * minute) true);
}

rise_confirmed : track numbers (tick 10) rise ≡ some confirmed_rise
unfolding track
rise_confirmed = refl

track-IsConfirmed_example :
    IsConfirmed numbers rise (tick 10)
    × (confirmed_rise.confirmed_at ≡ some (dawn + 10 * minute))
    × (confirmed_rise.confirmed_through ≡ some (dawn + 10 * minute))
track-IsConfirmed_example =
    track-IsConfirmed numbers (tick 10) rise confirmed_rise refl rise_confirmed refl

abbrev no_facts : Signal numbers → Bars × Candles numbers
no_facts s = ((λ k. none), (λ k. none))

rise_kept : find_row numbers "BTC-mf1-buy-1" (confirmed_rise ∷ []) ≡ some confirmed_rise
unfolding find_row
rise_kept = refl

abbrev later_ticks : List (Inputs numbers × String)
later_ticks = (tick 15, "BTC") ∷ (tick 300, "BTC") ∷ []

lifecycles_closed_example :
    (s : Signal numbers) × (find_row numbers "BTC-mf1-buy-1"
        (lifecycles numbers no_facts later_ticks (confirmed_rise ∷ []))
      ≡ some s)
    × SameCore numbers confirmed_rise s
lifecycles_closed_example =
    lifecycles_closed numbers no_facts later_ticks (confirmed_rise ∷ []) confirmed_rise refl
      rise_kept
      (
        inr (record {
          id = refl;
          state = refl;
          confirmed_at = refl;
          confirmed_through = refl;
          frozen_high = refl;
          frozen_low = refl;
          repair = refl;
        }),
        tt,
      )

price_progress_ends_example :
    progress_terminal numbers (
      some (
        price_progress numbers confirmed_rise
          (λ k. none)
          (λ k. none)
          (dawn + 2 * hour)
          (dawn + 5 * hour)
          false))
    ≡ true
price_progress_ends_example =
    price_progress_ends numbers confirmed_rise (λ k. none) (λ k. none) (dawn + 2 * hour)
      (dawn + 5 * hour) false (dawn + 10 * minute) refl (omega arith)

-- Quiet for half an hour, and then another pattern.
abbrev look : ℕ → String → Look
look m p = record {
  now = dawn + m * minute;
  valid = true;
  pattern = p;
  new_bar = true;
  bounded = true;
  id = "BTC-mf1-buy-2";
}

abbrev looks : List Look
looks = look 5 "fast" ∷ look 10 "" ∷ look 25 "" ∷ look 40 "" ∷ look 45 "fast" ∷ []

looks_give : gives multifactor looks (record { active = "BTC-mf1-buy-1"; clear = none }) ≡ true
unfolding gives
looks_give = refl

gives-HasGap_example : HasGap looks
gives-HasGap_example =
    gives-HasGap multifactor looks (record { active = "BTC-mf1-buy-1"; clear = none }) refl refl
      looks_give

abbrev empty_tables : Tables numbers
empty_tables = record { documents = []; publications = []; notices = [] }

abbrev terms : Terms numbers
terms = record {
  now = dawn;
  cutover = some dawn;
  candidate_allowed = false;
  mail = true;
  sent = λ id. false;
}

abbrev two_commits : List (Terms numbers × List (Update numbers))
two_commits =
    (terms, record { signal = rise; kind = "anomaly" } ∷ [])
    ∷ (terms, record { signal = rise; kind = "anomaly" } ∷ [])
    ∷ []

commits-Grown_example : Grown numbers empty_tables (commits numbers two_commits empty_tables)
commits-Grown_example = commits-Grown numbers two_commits empty_tables

-- An hour that is bought at 8 million dollars in five minutes, and a price that doubles in it, which is
-- less than an average hour's range.
abbrev flood : Bars
flood s = some (record { at = unix_epoch; buy = pos 800000000; sell = pos 0 })

abbrev doubling : Candles numbers
doubling s =
    some (record {
      high = 900;
      low = 1;
      close = if ltb s (unix (dawn - 30 * minute)) then 100 else 250;
    })

abbrev directed_baseline : SignalBaseline numbers
directed_baseline = record open_baseline {
  directional = some (record {
    buy = record {
      fast_samples = 1;
      hour_samples = 1;
      fast_p95 = some 1;
      hour_p90 = some 1;
      hour_p95 = some 1;
    };
    sell = record {
      fast_samples = 1;
      hour_samples = 1;
      fast_p95 = some 1;
      hour_p90 = some 1;
      hour_p95 = some 1;
    };
  });
}

abbrev snapshot : FlowSnapshot numbers
snapshot = build_flow_snapshot numbers flood doubling dawn dawn directed_baseline true

abbrev point : String → FundingPoint numbers
point v = record { venue = v; comparable = true; p95 = some 10; p05 = some 0; rate = 1 }

abbrev calm_context : DerivativeContext numbers
calm_context = record {
  futures = snapshot.windows.spot60;
  coin_1h = some 1;
  abs_p75 = some 1;
  funding = point "Binance" ∷ point "OKX" ∷ [];
  long_known = true;
  short_known = true;
}

abbrev supports : List (FlowAssessment numbers) → List Bool
supports [] = []
supports (v ∷ vs) = v.supported ∷ supports vs

-- The buying is supported, the selling is not.
buying_supported :
    supports (explain numbers snapshot calm_context "").assessments ≡ true ∷ false ∷ []
unfolding explain build_flow_snapshot core_assessment flow_window funding_warning
buying_supported = refl

explain-Explained_example :
    All
      (Explained numbers snapshot calm_context
        (direction_of numbers "" snapshot.windows.spot60.net))
      (explain numbers snapshot calm_context "").assessments
explain-Explained_example =
    explain-Explained numbers flood doubling dawn dawn directed_baseline true calm_context ""
