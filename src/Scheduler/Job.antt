-- ===== src/Scheduler/Job.antt =====
-- `Job`, `Dataset` and the profile tests on a dataset (internal/datahub/scheduler.go, types.go,
-- book_flow_profile.go). Fields that only feed the status page's statistics (`FetchSeconds`,
-- `SourceLagSeconds` and the sample counts) are left out.
use tidal_crypto_intelligenc.Base.{
  ℕ, Bool, ◌&&◌, ◌||◌, Option, none, some, List, [], ◌∷◌, String, str_eq, has_suffix, if◌then◌else◌,
}
use tidal_crypto_intelligenc.Scheduler.Ranges.{OrderRange}

pub record Dataset : Type 0 where
  pub collection : String
  pub contract : Bool
  pub id : String
  pub kind : String
  pub asset : String
  pub market : String
  pub venue : String
  pub resolution : ℕ
  pub refresh : ℕ
  pub soft_deadline : ℕ
  pub ttl : ℕ
  pub priority : ℕ

pub data Mode : Type 0 where
  live on_demand history baseline : Mode

abbrev pub is_live : Mode → Bool
is_live live = Bool.true
is_live _ = Bool.false

abbrev pub is_history : Mode → Bool
is_history history = Bool.true
is_history _ = Bool.false

abbrev pub is_baseline : Mode → Bool
is_baseline baseline = Bool.true
is_baseline _ = Bool.false

pub record HistoryGap : Type 0 where
  pub from : ℕ
  pub to : ℕ
  pub reason : String

pub record Job : Type 0 where
  pub id : String
  pub dataset : Dataset
  pub next : ℕ
  pub last_attempt : Option ℕ
  pub last_success : Option ℕ
  pub last_failure_at : Option ℕ
  pub error : String
  pub error_kind : String
  pub contract_status : String
  pub purpose : String
  pub failures : ℕ
  pub in_flight : Bool
  pub mode : Mode
  pub from : Option ℕ
  pub to : Option ℕ
  pub disabled : Bool
  pub completed : Bool
  pub calls : ℕ
  pub queue_wait : ℕ
  pub gaps : List HistoryGap
  pub covered : List OrderRange
  pub order_ranges : List OrderRange
  pub order_through : Option ℕ
  pub order_first : Option ℕ
  pub order_gaps : ℕ

abbrev pub book_flow_collection : String
book_flow_collection = "btc-spot-priority-v2"

unfoldable pub core_book : Dataset → Bool
core_book d =
    str_eq d.kind "book"
    && str_eq d.asset "BTC"
    && (str_eq d.venue "Binance" || str_eq d.venue "OKX")

unfoldable pub minute_foot : Dataset → Bool
minute_foot d = str_eq d.kind "footprint" && has_suffix d.id ".minute-v1"

module _ (key : String) where
  -- `s.jobs[key]`. The map is a list of jobs, each under its own id.
  unfoldable pub lookup : List Job → Option Job
  lookup [] = none
  lookup (j ∷ js) = let rest = lookup js in if str_eq j.id key then some j else rest

  -- A write through the pointer `s.jobs[key]`.
  unfoldable pub update : (Job → Job) → List Job → List Job
  update f [] = []
  update f (j ∷ js) = let rest = j ∷ update f js in if str_eq j.id key then f j ∷ js else rest
