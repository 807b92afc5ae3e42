-- ===== src/Signals/Baseline.antt =====
-- The thirty days' baseline of the signals (internal/datahub/signals.go, rolling_baseline.go,
-- research_statistics.go, multifactor.go): `baselineFromBars` builds it from all bars of a window,
-- `rollingBaseline` keeps sorted samples and moves the window by a bar at a time. A date is a day
-- since 1970.
pub mod Rolling
pub mod Sorted
pub mod Windows
pub mod Growth
pub mod Rebuild
use tidal_crypto_intelligenc.Base.{
  ℕ, zero, suc, ◌+◌, ◌-◌, ◌*◌, ◌/◌, Bool, true, false, not, ◌&&◌, ◌||◌, ltb, leb, ◌==◌,
  if◌then◌else◌, Option, none, some, List, [], ◌∷◌, ◌++◌, length, is_some, minute, hour, unix, min,
}
use tidal_crypto_intelligenc.Base.Integers.{ℤ, pos, negsuc, ◌+ℤ◌}
use tidal_crypto_intelligenc.Study.Prices.{Floats, five_minutes}
use tidal_crypto_intelligenc.Signals.{FlowBar, Bars, net, or_else, sum_bars}
use tidal_crypto_intelligenc.Signals.Accumulator.{put}

-- The times of `for t := from; t.Before(to); t = t.Add(5 * time.Minute)`.
abbrev pub times : ℕ → ℕ → List ℕ
times zero t = []
times (suc n) t = t ∷ times n (t + five_minutes)

abbrev pub steps : ℕ → ℕ → ℕ
steps from to = (to - from + (five_minutes - 1)) / five_minutes

abbrev pub day : ℕ → ℕ
day t = unix t / 86400

-- The dates of the map with at least 274 bars, from the window's first to its last.
abbrev pub full_dates : (ℕ → ℕ) → ℕ → ℕ → ℕ
full_dates dates d zero = 0
full_dates dates d (suc n) =
    let rest = full_dates dates (d + 1) n in if leb 274 (dates d) then suc rest else rest

abbrev pub dates_of : (ℕ → ℕ) → ℕ → ℕ → ℕ
dates_of dates from to = full_dates dates (day from) (day to - day from + 1)

abbrev pub counted : Bars → List ℕ → ℕ
counted bars [] = 0
counted bars (t ∷ ts) =
    let rest = counted bars ts in if is_some (bars (unix t)) then suc rest else rest

abbrev pub dated : Bars → List ℕ → ℕ → ℕ
dated bars [] d = 0
dated bars (t ∷ ts) d =
    let rest = dated bars ts d in if is_some (bars (unix t)) && (d == day t) then suc rest else rest

module _ (F : Floats) where
  open F use {Float, nought, at_least, less, of_int, hundredths, to_int, add, sub, mul, div}

  pub record DirectionThreshold : Type 0 where
    pub fast_samples : ℕ
    pub hour_samples : ℕ
    pub fast_p95 : Option Float
    pub hour_p90 : Option Float
    pub hour_p95 : Option Float

  pub record DirectionalBaseline : Type 0 where
    pub buy : DirectionThreshold
    pub sell : DirectionThreshold

  -- Without the version of the input.
  pub record SignalBaseline : Type 0 where
    pub directional : Option DirectionalBaseline
    pub at : ℕ
    pub from : ℕ
    pub to : ℕ
    pub coverage : Float
    pub dates : ℕ
    pub valid : Bool
    pub p95 : Float
    pub p05 : Float
    pub p90 : Float
    pub p95_hour : Option Float
    pub p10 : Float
    pub median15 : Float
    pub median60 : Float

  pub record RollingBaseline : Type 0 where
    pub bars : Bars
    pub from : ℕ
    pub to : ℕ
    pub dates : ℕ → ℕ
    pub valid : ℕ
    pub net15 : List Float
    pub vol15 : List Float
    pub net60 : List Float
    pub vol60 : List Float

  -- `sortedChange`, with the value added before the first that is not less, or taken from there.
  unfoldable pub insert_sorted : Float → List Float → List Float
  insert_sorted v [] = v ∷ []
  insert_sorted v (x ∷ xs) =
      let rest = x ∷ insert_sorted v xs in if at_least x v then v ∷ x ∷ xs else rest

  unfoldable pub remove_sorted : Float → List Float → List Float
  remove_sorted v [] = []
  remove_sorted v (x ∷ xs) =
      let rest = x ∷ remove_sorted v xs in
      if at_least x v then if at_least v x then xs else x ∷ xs else rest

  unfoldable pub sorted_change : List Float → Float → Bool → List Float
  unfolding insert_sorted remove_sorted
  sorted_change a v adding = if adding then insert_sorted v a else remove_sorted v a

  -- `sort.Float64s`.
  unfoldable pub sorted : List Float → List Float
  unfolding insert_sorted
  sorted [] = []
  sorted (x ∷ xs) = insert_sorted x (sorted xs)

  abbrev pub nth : List Float → ℕ → Float
  nth [] n = nought
  nth (x ∷ xs) zero = x
  nth (x ∷ xs) (suc n) = nth xs n

  unfoldable pub sorted_quantile : List Float → Float → Float
  sorted_quantile [] p = nought
  sorted_quantile (x ∷ xs) p =
      let a = x ∷ xs in
      let f = mul (of_int (pos (length xs))) p in
      let i = to_int f in
      let j = min (i + 1) (length xs) in
      add (nth a i) (mul (sub (nth a j) (nth a i)) (sub f (of_int (pos i))))

  unfoldable pub percentile : List Float → Float → Float
  unfolding sorted_quantile sorted
  percentile a p = sorted_quantile (sorted a) p

  abbrev pub toward : Float → List Float → List Float
  toward sign [] = []
  toward sign (x ∷ xs) =
      let rest = toward sign xs in if less nought (mul x sign) then mul x sign ∷ rest else rest

  abbrev pub quantile_of : List Float → Float → Option Float
  quantile_of [] p = none
  quantile_of (x ∷ xs) p = some (percentile (x ∷ xs) p)

  abbrev pub make_side : List Float → List Float → Float → DirectionThreshold
  make_side fast hours sign =
      let f = toward sign fast in
      let h = toward sign hours in
      record {
        fast_samples = length f;
        hour_samples = length h;
        fast_p95 = quantile_of f (hundredths 95);
        hour_p90 = quantile_of h (hundredths 90);
        hour_p95 = quantile_of h (hundredths 95);
      }

  unfoldable pub directional_baseline : List Float → List Float → DirectionalBaseline
  unfolding percentile
  directional_baseline fast hours = record {
    buy = make_side fast hours (of_int (pos 1));
    sell = make_side fast hours (of_int (negsuc 0));
  }

  abbrev pub coverage_of : ℕ → ℕ → ℕ → Float
  coverage_of valid from to =
      let expected = (to - from) / five_minutes in
      if expected == 0 then nought else div (of_int (pos valid)) (of_int (pos expected))

  abbrev pub enough : ℕ → Float → List Float → List Float → Bool
  enough dates coverage net15 net60 =
      leb 21 dates
      && at_least coverage (hundredths 95)
      && ltb 0 (length net15)
      && ltb 0 (length net60)

  -- The samples that `baselineFromBars` gathers.
  abbrev pub net_of : FlowBar → Float
  net_of b = of_int (net b)

  abbrev pub volume_of : FlowBar → Float
  volume_of b = of_int (b.buy +ℤ b.sell)

  abbrev pub sample : (FlowBar → Float) → FlowBar × Bool → List Float
  sample g (b, ok) = if ok then g b ∷ [] else []

  abbrev pub gathered : (FlowBar → Float) → Bars → ℕ → ℕ → ℕ → List ℕ → List Float
  gathered g bars n wait from [] = []
  gathered g bars n wait from (t ∷ ts) =
      let rest = gathered g bars n wait from ts in
      if leb wait (t + five_minutes - from)
      then sample g (sum_bars bars (t + five_minutes) n) ++ rest
      else rest

  -- `baselineFromBars`.
  unfoldable pub baseline_from_bars : Bars → ℕ → ℕ → ℕ → SignalBaseline
  unfolding percentile directional_baseline
  baseline_from_bars bars from to now =
      let ts = times (steps from to) from in
      let net15 = gathered net_of bars 3 (15 * minute) from ts in
      let vol15 = gathered volume_of bars 3 (15 * minute) from ts in
      let net60 = gathered net_of bars 12 hour from ts in
      let vol60 = gathered volume_of bars 12 hour from ts in
      let dates = dates_of (dated bars ts) from to in
      let coverage = coverage_of (counted bars ts) from to in
      record {
        directional = some (directional_baseline (sorted net15) (sorted net60));
        at = now;
        from = from;
        to = to;
        coverage = coverage;
        dates = dates;
        valid = enough dates coverage net15 net60;
        p95 = percentile net15 (hundredths 95);
        p05 = percentile net15 (hundredths 5);
        p90 = percentile net60 (hundredths 90);
        p95_hour = some (percentile net60 (hundredths 95));
        p10 = percentile net60 (hundredths 10);
        median15 = percentile vol15 (hundredths 50);
        median60 = percentile vol60 (hundredths 50);
      }
