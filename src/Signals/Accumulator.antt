-- ===== src/Signals/Accumulator.antt =====
-- `flowAccumulator` and `flowBars` (internal/datahub/signals.go): rows of a finer resolution are
-- added up to bars, and a bar they do not fill is taken from a row of the bar's own resolution.
pub mod Reference
use tidal_crypto_intelligenc.Base.{
  ℕ, ◌+◌, ◌*◌, ◌/◌, ◌%◌, Bool, true, false, not, ◌&&◌, ◌||◌, ltb, ◌==◌, if◌then◌else◌, Option, none,
  some, List, [], ◌∷◌, str_eq, second, truncate, unix_epoch, unix, max,
}
use tidal_crypto_intelligenc.Base.Integers.{◌+ℤ◌}
use tidal_crypto_intelligenc.Signals.{
  Flow, Observation, FlowBar, Bars, no_bar, or_else, if_some, record_time,
}

pub record FlowAccumulator : Type 0 where
  pub out : Bars
  pub direct : Bars
  pub counts : ℕ → ℕ
  pub bad : ℕ → Bool
  pub res : ℕ

-- `m[k] = v`.
abbrev pub put {ℓ} : {A : Type ℓ} → (ℕ → A) → ℕ → A → ℕ → A
put m k v j = if j == k then v else m j

unfoldable pub new_flow_accumulator : ℕ → FlowAccumulator
new_flow_accumulator res = record {
  out = λ k. none;
  direct = λ k. none;
  counts = λ k. 0;
  bad = λ k. false;
  res = res;
}

abbrev pub is_valid : Observation → Bool
is_valid o = str_eq o.quality "valid"

abbrev pub native : Observation → ℕ
native o = max 60 o.resolution

-- The row does not fit bars of `res` seconds.
abbrev pub misfit : ℕ → Observation → Bool
misfit res o =
    ltb res (native o) || not (res % native o == 0) || not (unix (record_time o) % native o == 0)

-- `at.Truncate(res)`, in seconds.
abbrev pub bucket : ℕ → Observation → ℕ
bucket res o = unix (truncate (record_time o) (res * second))

abbrev pub bar_at : ℕ → Flow → FlowBar
bar_at at v = record { at = at; buy = v.buy; sell = v.sell }

abbrev pub added : ℕ → Flow → Option FlowBar → FlowBar
added k v o =
    let b = or_else o no_bar in
    record { at = unix_epoch + k * second; buy = b.buy +ℤ v.buy; sell = b.sell +ℤ v.sell }

abbrev pub add_flow : FlowAccumulator → Observation → Flow → FlowAccumulator
add_flow f o v =
    let at = record_time o in
    let k = bucket f.res o in
    if misfit f.res o
    then f
    else if native o == f.res
    then if is_valid o then record f { direct = put f.direct (unix at) (some (bar_at at v)) } else f
    else record f {
      out = put f.out k (some (added k v (f.out k)));
      bad = if is_valid o then f.bad else put f.bad k true;
      counts = put f.counts k (f.counts k + native o);
    }

-- `add`.
unfoldable pub add : FlowAccumulator → Observation → FlowAccumulator
unfolding record_time
add f o = if_some o.flow f (λ v. add_flow f o v)

abbrev pub kept : Bool → Option FlowBar → Option FlowBar
kept good none = none
kept good (some b) = if good then some b else none

abbrev pub first_of : Option FlowBar → Option FlowBar → Option FlowBar
first_of none d = d
first_of (some b) d = some b

-- `finish`.
unfoldable pub finish : FlowAccumulator → Bars
finish f k = first_of (kept (f.counts k == f.res && not (f.bad k)) (f.out k)) (f.direct k)

unfoldable pub add_all : FlowAccumulator → List Observation → FlowAccumulator
unfolding add
add_all f [] = f
add_all f (o ∷ os) = add_all (add f o) os

-- `flowBars`.
unfoldable pub flow_bars : List Observation → ℕ → Bars
unfolding add_all new_flow_accumulator finish
flow_bars rows res = finish (add_all (new_flow_accumulator res) rows)
