-- ===== src/Signals.antt =====
-- The signals' data (internal/datahub/signals.go, types.go): rows of flow, bars of five minutes, the
-- thirty days' baseline. Times are as in Base; a Go map by unix seconds is a function.
pub mod Baseline
pub mod Lifecycle
pub mod Conditions
pub mod Snapshot
pub mod Commit
pub mod Rearm
pub mod Track
pub mod Accumulator
mod Scenarios
use tidal_crypto_intelligenc.Base.{
  ℕ, zero, suc, ◌+◌, ◌-◌, ◌*◌, ◌/◌, ◌%◌, Bool, true, false, not, ◌&&◌, ◌||◌, ltb, ◌==◌,
  if◌then◌else◌, Option, none, some, String, str_eq, second, minute, unix_epoch, unix, max,
}
use tidal_crypto_intelligenc.Base.Integers.{ℤ, pos, negsuc, ◌+ℤ◌, ◌-ℤ◌, is_pos, is_negative}

-- The payload `Flow`, as the cents that `money` makes of its texts.
pub record Flow : Type 0 where
  pub buy : ℤ
  pub sell : ℤ

-- The fields of an `Observation` that the accumulator reads.
pub record Observation : Type 0 where
  pub observed_at : Option ℕ
  pub fetched_at : ℕ
  pub window_start : Option ℕ
  pub resolution : ℕ
  pub quality : String
  pub flow : Option Flow

pub record FlowBar : Type 0 where
  pub at : ℕ
  pub buy : ℤ
  pub sell : ℤ

abbrev pub no_bar : FlowBar
no_bar = record { at = 0; buy = pos 0; sell = pos 0 }

abbrev pub Bars : Type 0
Bars = ℕ → Option FlowBar

abbrev pub net : FlowBar → ℤ
net b = b.buy -ℤ b.sell

-- `n * sideSign(side)`.
abbrev pub signed : String → ℤ → ℤ
signed side n = if str_eq side "sell" then pos 0 -ℤ n else n

abbrev pub or_else {ℓ} : {A : Type ℓ} → Option A → A → A
or_else none d = d
or_else (some a) d = a

-- A pointer's value, if it has one.
abbrev pub if_some {ℓ κ} : {A : Type ℓ} {B : Type κ} → Option A → B → (A → B) → B
if_some none d f = d
if_some (some a) d f = f a

-- `recordTime`.
unfoldable pub record_time : Observation → ℕ
record_time o = or_else o.window_start (or_else o.observed_at o.fetched_at)

-- The bar that begins `n` bars before `end`.
abbrev pub bar_before : Bars → ℕ → ℕ → Option FlowBar
bar_before bars end n = bars (unix (end - n * (5 * minute)))

abbrev pub joined : FlowBar → Option FlowBar → FlowBar × Bool → FlowBar × Bool
joined b none r = (b, false)
joined b (some p) r = r

abbrev pub grown : FlowBar → Option FlowBar → FlowBar
grown b none = b
grown b (some p) = record b { buy = b.buy +ℤ p.buy; sell = b.sell +ℤ p.sell }

unfoldable pub sum_from : Bars → ℕ → ℕ → FlowBar → FlowBar × Bool
sum_from bars end zero b = (b, true)
sum_from bars end (suc n) b =
    joined b (bar_before bars end (suc n))
      (sum_from bars end n (grown b (bar_before bars end (suc n))))

-- `sumBars`.
unfoldable pub sum_bars : Bars → ℕ → ℕ → FlowBar × Bool
unfolding sum_from
sum_bars bars end n =
    sum_from bars end n (record { at = end - n * (5 * minute); buy = pos 0; sell = pos 0 })
