-- ===== src/Paper/Types.antt =====
-- The records of internal/datahub/paper_types.go. Texts that the source formats from parts (the ids
-- of fills and intakes) are kept as their parts: the generation is hexadecimal and the groups and
-- states hold no slash, so the parts can be read off the text.
use tidal_crypto_intelligenc.Base.{
  ℕ, ◌+◌, ◌*◌, Bool, false, not, ◌&&◌, ◌||◌, leb, if◌then◌else◌, List, [], ◌∷◌, ◌++◌, Option,
  String, str_eq, second, hour,
}
use tidal_crypto_intelligenc.Paper.Decimal.{DecimalOps, is_positive, at_most}

-- The fields of a `Signal` that the experiment reads.
pub record Signal : Type 0 where
  pub id : String
  pub asset : String
  pub rules : String
  pub direction : String
  pub at : ℕ

pub record Intake : Type 0 where
  pub generation : String
  pub group : String
  pub at : ℕ
  pub state : String
  pub reason : String
  pub signal : Signal

pub record PaperEvent : Type 0 where
  pub at : ℕ
  pub kind : String
  pub reason : String

module _ (D : DecimalOps) where
  open D use {Decimal, of_int, add, sub, neg, require}

  pub record Quote : Type 0 where
    pub id : ℕ
    pub at : ℕ
    pub event_at : ℕ
    pub bid : Decimal
    pub ask : Decimal
    pub bid_qty : Decimal
    pub ask_qty : Decimal

  pub record Instrument : Type 0 where
    pub at : ℕ
    pub status : String
    pub step : Decimal
    pub minimum : Decimal
    pub maximum : Decimal
    pub min_notional : Decimal

  pub record Intent : Type 0 where
    pub signal : Signal
    pub seen : ℕ
    pub after : ℕ
    pub atr : Decimal
    pub atr_through : ℕ

  pub record Trade : Type 0 where
    pub id : String × String × String  -- generation, group, signal
    pub group : String
    pub signal : Signal
    pub seen : ℕ
    pub entered : ℕ
    pub exited : Option ℕ
    pub entry : Decimal
    pub quantity : Decimal
    pub remaining : Decimal
    pub atr : Decimal
    pub atr_through : ℕ
    pub stop : Option Decimal
    pub target : Option Decimal
    pub gross : Decimal
    pub fees : Decimal
    pub slippage : Decimal
    pub funding : Decimal
    pub mfe : Decimal
    pub mae : Decimal
    pub mfe_at : ℕ
    pub mae_at : ℕ
    pub quality : List String
    pub exit_reason : String
    pub exit_after : ℕ
    pub fill_count : ℕ

  pub record Fill : Type 0 where
    pub number : ℕ
    pub trade_id : String × String × String
    pub group : String
    pub kind : String
    pub side : String
    pub at : ℕ
    pub price : Decimal
    pub quantity : Decimal
    pub fee : Decimal
    pub slippage : Decimal
    pub quote : Quote

  pub record Account : Type 0 where
    pub group : String
    pub gross : Decimal
    pub fees : Decimal
    pub funding : Decimal
    pub position : Option Trade
    pub pending : Option Intent

  pub record Equity : Type 0 where
    pub at : ℕ
    pub group : String
    pub before_funding : Option Decimal
    pub unrealized : Option Decimal
    pub occupied : Bool
    pub covered_seconds : ℕ
    pub observed_seconds : ℕ

  pub record State : Type 0 where
    pub generation : String
    pub origin : Option ℕ
    pub cursor : ℕ
    pub last_quote_id : ℕ
    pub at : ℕ
    pub accounts : List Account
    pub funding_through : ℕ
    pub funding_conflict : Option ℕ
    pub expected_funding : List ℕ
    pub settled_funding : List ℕ
    pub good_since : ℕ
    pub gap : Bool
    pub pause : String
    pub last_failure : String
    pub last_failure_at : Option ℕ
    pub observed_seconds : ℕ
    pub covered_seconds : ℕ
    pub last_sample : ℕ
    pub last_tick : ℕ
    pub equity_gap : Bool

  pub record Batch : Type 0 where
    pub trades : List Trade
    pub fills : List Fill
    pub intakes : List Intake
    pub equity : List Equity
    pub events : List PaperEvent

  abbrev pub paper_fee : Decimal
  paper_fee = require "0.0005"

  abbrev pub paper_slip : Decimal
  paper_slip = require "0.0002"

  abbrev pub paper_notional : Decimal
  paper_notional = of_int 1000

  abbrev pub paper_initial : Decimal
  paper_initial = of_int 10000

  unfoldable pub quote_valid : Quote → ℕ → Bool
  quote_valid q now =
      not (leb q.id 0)
      && is_positive D q.bid
      && at_most D q.bid q.ask
      && is_positive D q.bid_qty
      && is_positive D q.ask_qty
      && leb q.at now
      && leb now (q.at + 5 * second)
      && leb q.event_at (now + second)
      && leb now (q.event_at + 5 * second)

  unfoldable pub instrument_valid : Instrument → ℕ → Bool
  instrument_valid m at =
      str_eq m.status "TRADING"
      && is_positive D m.step
      && is_positive D m.maximum
      && leb m.at at
      && leb at (m.at + 6 * hour)

  -- `NewFromInt(-1)` and `NewFromInt(1)`.
  unfoldable pub sign : Trade → Decimal
  sign t = if str_eq t.signal.direction "sell" then neg (of_int 1) else of_int 1

  abbrev pub has_reason : String → List String → Bool
  has_reason r [] = false
  has_reason r (v ∷ vs) = str_eq v r || has_reason r vs

  unfoldable pub flag : String → Trade → Trade
  flag r t = if has_reason r t.quality then t else record t { quality = t.quality ++ r ∷ [] }

  unfoldable pub cash : Account → Decimal
  cash a = add (sub (add paper_initial a.gross) a.fees) a.funding

  abbrev pub empty_batch : Batch
  empty_batch = record { trades = []; fills = []; intakes = []; equity = []; events = [] }

  abbrev pub join : Batch → Batch → Batch
  join a b = record {
    trades = a.trades ++ b.trades;
    fills = a.fills ++ b.fills;
    intakes = a.intakes ++ b.intakes;
    equity = a.equity ++ b.equity;
    events = a.events ++ b.events;
  }

  unfoldable pub intake_record : State → Account → Intent → ℕ → String → String → Intake
  intake_record s a i at state reason = record {
    generation = s.generation;
    group = a.group;
    at = at;
    state = state;
    reason = reason;
    signal = i.signal;
  }
