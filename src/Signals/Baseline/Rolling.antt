-- ===== src/Signals/Baseline/Rolling.antt =====
-- `rollingBaseline` (internal/datahub/rolling_baseline.go).
use tidal_crypto_intelligenc.Base.{
  ℕ, zero, suc, ◌+◌, ◌-◌, ◌*◌, Bool, true, false, ◌==◌, leb, if◌then◌else◌, some, List, [], ◌∷◌,
  is_some, minute, hour, unix,
}
use tidal_crypto_intelligenc.Study.Prices.{Floats, five_minutes}
use tidal_crypto_intelligenc.Signals.{FlowBar, Bars, sum_bars}
use tidal_crypto_intelligenc.Signals.Accumulator.{put}
use tidal_crypto_intelligenc.Signals.Baseline.{
  times, steps, day, dates_of, SignalBaseline, RollingBaseline, sorted_change, sorted_quantile,
  directional_baseline, coverage_of, enough, net_of, volume_of,
}

module _ (F : Floats) where
  open F use {Float, hundredths}

  -- `bar`.
  unfoldable pub bar : RollingBaseline F → ℕ → Bool → RollingBaseline F
  bar r at adding =
      let d = day at in
      if is_some (r.bars (unix at))
      then if adding
        then record r { valid = r.valid + 1; dates = put r.dates d (r.dates d + 1) }
        else record r { valid = r.valid - 1; dates = put r.dates d (r.dates d - 1) }
      else r

  abbrev pub featured : RollingBaseline F → ℕ → Bool → FlowBar × Bool → RollingBaseline F
  featured r n adding (b, ok) =
      if ok
      then if n == 3
        then record r {
          net15 = sorted_change F r.net15 (net_of F b) adding;
          vol15 = sorted_change F r.vol15 (volume_of F b) adding;
        }
        else record r {
          net60 = sorted_change F r.net60 (net_of F b) adding;
          vol60 = sorted_change F r.vol60 (volume_of F b) adding;
        }
      else r

  -- `feature`.
  unfoldable pub feature : RollingBaseline F → ℕ → ℕ → Bool → RollingBaseline F
  unfolding sorted_change
  feature r end n adding = featured r n adding (sum_bars r.bars end n)

  abbrev pub started : RollingBaseline F → ℕ → RollingBaseline F
  started r at =
      let end = at + five_minutes in
      let r1 = bar r at true in
      let r2 = if leb (15 * minute) (end - r.from) then feature r1 end 3 true else r1 in
      if leb hour (end - r.from) then feature r2 end 12 true else r2

  unfoldable pub started_on : RollingBaseline F → List ℕ → RollingBaseline F
  unfolding bar feature
  started_on r [] = r
  started_on r (t ∷ ts) = started_on (started r t) ts

  abbrev pub empty : Bars → ℕ → ℕ → RollingBaseline F
  empty bars from to = record {
    bars = bars;
    from = from;
    to = to;
    dates = λ d. 0;
    valid = 0;
    net15 = [];
    vol15 = [];
    net60 = [];
    vol60 = [];
  }

  -- `newRollingBaseline`.
  unfoldable pub new_rolling_baseline : Bars → ℕ → ℕ → RollingBaseline F
  unfolding started_on
  new_rolling_baseline bars from to = started_on (empty bars from to) (times (steps from to) from)

  abbrev pub moved : RollingBaseline F → RollingBaseline F
  moved r =
      let r1 = bar r r.from false in
      let r2 = feature r1 (r1.from + 15 * minute) 3 false in
      let r3 = feature r2 (r2.from + hour) 12 false in
      let r4 = bar r3 r3.to true in
      let r5 = record r4 { from = r4.from + five_minutes; to = r4.to + five_minutes } in
      let r6 = feature r5 r5.to 3 true in feature r6 r6.to 12 true

  unfoldable pub moved_by : ℕ → RollingBaseline F → RollingBaseline F
  unfolding bar feature
  moved_by zero r = r
  moved_by (suc n) r = moved_by n (moved r)

  -- `advance`.
  unfoldable pub advance : RollingBaseline F → ℕ → RollingBaseline F
  unfolding moved_by
  advance r to = moved_by (steps r.to to) r

  -- `result`.
  unfoldable pub result : RollingBaseline F → ℕ → SignalBaseline F
  unfolding sorted_quantile directional_baseline
  result r now =
      let dates = dates_of r.dates r.from r.to in
      let coverage = coverage_of F r.valid r.from r.to in
      record {
        directional = some (directional_baseline F r.net15 r.net60);
        at = now;
        from = r.from;
        to = r.to;
        coverage = coverage;
        dates = dates;
        valid = enough F dates coverage r.net15 r.net60;
        p95 = sorted_quantile F r.net15 (hundredths 95);
        p05 = sorted_quantile F r.net15 (hundredths 5);
        p90 = sorted_quantile F r.net60 (hundredths 90);
        p95_hour = some (sorted_quantile F r.net60 (hundredths 95));
        p10 = sorted_quantile F r.net60 (hundredths 10);
        median15 = sorted_quantile F r.vol15 (hundredths 50);
        median60 = sorted_quantile F r.vol60 (hundredths 50);
      }
