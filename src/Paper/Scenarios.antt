-- ===== src/Paper/Scenarios.antt =====
-- Concrete runs of the experiment, on a fixed-point instance of the decimals: an entry, a trigger
-- and a partial close.
pub mod Fixed
use tidal_crypto_intelligenc.Base.{
  ℕ, ◌+◌, ◌-◌, ◌*◌, ◌≤◌, ◌<◌, ◌≡◌, ◌⊎◌, ◌↔◌, inl, inr, refl, Bool, true, false, List, [], ◌∷◌,
  Option, none, some, String, All, arith, str_eq, hour, second, millisecond, zero_time,
}
use tidal_crypto_intelligenc.Paper.Types.{
  Signal, Quote, Instrument, Intent, Trade, Fill, Account, State, Batch, PaperEvent, quote_valid,
  instrument_valid, empty_batch, cash, sign,
}
use tidal_crypto_intelligenc.Paper.Trading.{
  execution, exit_side, close_quote, trigger, unit_gain, mark, fill_trade,
}
use tidal_crypto_intelligenc.Paper.Funding.{
  settlement_observed, all_observed, funding_known, funding_quantity,
}
use tidal_crypto_intelligenc.Paper.Store.{Store, commit}
use tidal_crypto_intelligenc.Paper.Admission.{eligible, recovering, expired, checks, admission}
use tidal_crypto_intelligenc.Paper.Admission.Gate.{IsAdmitted, admission_iff}
use tidal_crypto_intelligenc.Paper.Gap.{discontinuity}
use tidal_crypto_intelligenc.Paper.Gap.Effects.{WoundDown, discontinuity_winds_down}
use tidal_crypto_intelligenc.Paper.Intakes.{Publication, take_in}
use tidal_crypto_intelligenc.Paper.Intakes.Replay.{take_in_again}
use tidal_crypto_intelligenc.Paper.Quotes.{
  risk_exit, watch, close_part, booked, due, close_size, hold, order_quantity, filtered, cost,
  refusal, open_trade, opened, enter, visit, visit_all, apply_quote, on_quote, stale, Round,
}
use tidal_crypto_intelligenc.Paper.Quotes.Delay.{fills_on, fills_on_waits}
use tidal_crypto_intelligenc.Paper.Quotes.Ledger.{IsStale, on_quote_refused}
use tidal_crypto_intelligenc.Paper.Heartbeat.{
  good, recover, paused, covered, count_time, sampled, beat, expire_all,
}
use tidal_crypto_intelligenc.Paper.Heartbeat.Recovery.{
  Beat, cleared, beaten, GoodFrom, beat_recovers,
}
use tidal_crypto_intelligenc.Paper.Audit.{Sums, audit_trade, agrees}
use tidal_crypto_intelligenc.Paper.Audit.Life.{
  Event, quoted, settled, happen, live_on, live_on-agrees,
}
use tidal_crypto_intelligenc.Paper.Settlement.{Funding, FundingEntry, Books, entry_of, settle}
use tidal_crypto_intelligenc.Paper.Settlement.Again.{settle_again}
use tidal_crypto_intelligenc.Base.Integers.{ℤ, pos, negsuc}
use tidal_crypto_intelligenc.Paper.Scenarios.Fixed.{fixed, fixed_laws}

-- 40 seconds after a whole hour.
abbrev noon : ℕ
noon = 100 * hour + 40 * second

abbrev signal : Signal
signal = record {
  id = "s1";
  asset = "BTC";
  rules = "flow-multifactor-v1";
  direction = "buy";
  at = noon - 20 * second;
}

abbrev intent : Intent fixed
intent = record {
  signal = signal;
  seen = noon - 6 * second;
  after = noon - 5 * second;
  atr = pos 10000;
  atr_through = 100 * hour;
}

-- Bid 99.9, ask 100, four contracts at the bid and twenty at the ask.
abbrev calm : Quote fixed
calm = record {
  id = 7;
  at = noon;
  event_at = noon;
  bid = pos 999000;
  ask = pos 1000000;
  bid_qty = pos 40000;
  ask_qty = pos 200000;
}

abbrev rally : Quote fixed
rally = record calm {
  id = 8;
  at = noon + 2 * second;
  event_at = noon + 2 * second;
  bid = pos 1030000;
  ask = pos 1031000;
}

abbrev later : Quote fixed
later = record rally { id = 9; at = noon + 4 * second; event_at = noon + 4 * second }

abbrev contract : Instrument fixed
contract = record {
  at = 99 * hour;
  status = "TRADING";
  step = pos 10000;
  minimum = pos 10000;
  maximum = pos 1000000;
  min_notional = pos 50000;
}

abbrev waiting : Account fixed
waiting = record {
  group = "risk";
  gross = pos 0;
  fees = pos 0;
  funding = pos 0;
  position = none;
  pending = some intent;
}

abbrev running : State fixed
running = record {
  generation = "0a";
  origin = some (99 * hour);
  cursor = 0;
  last_quote_id = 6;
  at = noon;
  accounts = waiting ∷ [];
  funding_through = noon;
  funding_conflict = none;
  expected_funding = [];
  settled_funding = [];
  good_since = 99 * hour;
  gap = false;
  pause = "";
  last_failure = "";
  last_failure_at = none;
  observed_seconds = 0;
  covered_seconds = 0;
  last_sample = noon;
  last_tick = noon - second;
  equity_gap = false;
}

abbrev store : Store fixed
store = record {
  state = running;
  mode = "run";
  quote = some calm;
  instrument = contract;
  atr = some intent;
  mark_at = noon;
  source_at = noon;
  last_quote_id = 6;
  ledger = empty_batch fixed;
}

-- Nine contracts, after the target was passed and four of them were sold.
abbrev part_sold : Trade fixed
part_sold = record {
  id = ("0a", "risk", "s1");
  group = "risk";
  signal = signal;
  seen = noon - 6 * second;
  entered = noon;
  exited = none;
  entry = pos 1000200;
  quantity = pos 90000;
  remaining = pos 50000;
  atr = pos 10000;
  atr_through = 100 * hour;
  stop = some (pos 990200);
  target = some (pos 1020200);
  gross = pos 118376;
  fees = pos 6559;
  slippage = pos 2624;
  funding = pos 0;
  mfe = pos 29800;
  mae = negsuc 1199;
  mfe_at = noon + 2 * second;
  mae_at = noon;
  quality = [];
  exit_reason = "take_profit";
  exit_after = noon + 3 * second;
  fill_count = 2;
}

-- The same position just after the entry.
abbrev fresh : Trade fixed
fresh = record part_sold {
  remaining = pos 90000;
  gross = pos 0;
  fees = pos 4500;
  slippage = pos 1800;
  mfe = pos 0;
  mfe_at = noon;
  exit_reason = "";
  exit_after = zero_time;
  fill_count = 1;
}

-- After the target was passed.
abbrev triggered : Trade fixed
triggered = record fresh {
  mfe = pos 29800;
  mfe_at = noon + 2 * second;
  exit_reason = "take_profit";
  exit_after = noon + 3 * second;
}

holds :
    (hold fixed store false rally (record waiting { position = some fresh }) fresh).0.position
    ≡ some triggered
unfolding hold watch mark unit_gain close_quote sign risk_exit trigger due exit_side close_size
    execution close_part fill_trade instrument_valid
holds = refl

-- The entry, a settlement at a mark price of 100 and a rate of 1%, and the two quotes that close.
abbrev events : List (Event fixed)
events =
    quoted (record { store = store; state = running; protected = false; quote = calm })
    ∷ settled (record {
      at = noon + second;
      acquired = noon + second;
      rate = pos 100;
      mark = pos 1000000;
    })
    ∷ quoted (record { store = store; state = running; protected = false; quote = rally })
    ∷ quoted (record { store = store; state = running; protected = false; quote = later })
    ∷ []

abbrev charged_sold : Trade fixed
charged_sold = record part_sold { funding = negsuc 89999 }

live_on-agrees_example :
    let end = live_on fixed events (record { account = waiting; fills = []; charges = [] }) in
    (v : Sums fixed) × (audit_trade fixed 9 charged_sold end.fills end.charges ≡ some v)
    × (agrees fixed charged_sold v ≡ true)
unfolding live_on happen visit enter hold opened watch close_part booked due close_size risk_exit
    unit_gain mark trigger fill_trade execution exit_side close_quote open_trade refusal filtered
    cost cash order_quantity admission checks eligible recovering expired quote_valid
    instrument_valid funding_known all_observed settlement_observed sign entry_of funding_quantity
live_on-agrees_example =
    live_on-agrees fixed fixed_laws 9 events waiting charged_sold refl
      (
        (omega arith, omega arith),
        (tt, ((omega arith, omega arith), ((omega arith, omega arith), tt))),
      )
      refl

admission_iff_example :
    (str_eq (admission fixed store running intent noon false) "" ≡ true)
    ↔ IsAdmitted fixed store running intent noon false
admission_iff_example = admission_iff fixed store running intent noon false

abbrev news : List Publication
news = record { seq = 1; at = noon; signal = signal } ∷ []

take_in_again_example :
    let after = (take_in fixed store noon false news running).0 in
    take_in fixed store (noon + second) true news after ≡ (after, empty_batch fixed)
take_in_again_example = take_in_again fixed store store noon (noon + second) false true news running

-- The quote that triggers, and one half a second later.
abbrev triggering : Round fixed
triggering = record { store = store; state = running; protected = false; quote = rally }

abbrev soon : Round fixed
soon = record triggering {
  quote = record rally {
    id = 9;
    at = noon + 2 * second + 500 * millisecond;
    event_at = noon + 2 * second + 500 * millisecond;
  };
}

fills_on_waits_example :
    fills_on fixed
      (triggering ∷ soon ∷ [])
      (record waiting { position = some fresh; pending = none })
    ≡ []
fills_on_waits_example =
    fills_on_waits fixed triggering (soon ∷ [])
      (record waiting { position = some fresh; pending = none }) fresh refl refl
      ((omega arith, omega arith), tt)

on_quote_refused_example :
    let r = (on_quote fixed true false calm false store).0 in
    let cut = (discontinuity fixed true noon "quote_gap" store).0 in
    ((r.state ≡ store.state) × (r.ledger ≡ store.ledger))
    ⊎ (IsStale fixed store.quote noon
        × (true ≡ true)
        × (r.state ≡ cut.state)
        × (r.ledger ≡ cut.ledger))
unfolding on_quote apply_quote visit_all visit enter opened mark fill_trade execution close_quote
    unit_gain open_trade refusal filtered cost cash order_quantity admission checks eligible
    recovering expired quote_valid instrument_valid funding_known all_observed settlement_observed
    sign commit
on_quote_refused_example = on_quote_refused fixed true calm false store refl

-- Two heartbeats, half a minute apart, after a gap.
abbrev cut_state : State fixed
cut_state = record running { gap = true; good_since = zero_time }

abbrev first_beat : Beat fixed
first_beat = record {
  store = record store {
    quote = some (record calm { at = noon - 30 * second; event_at = noon - 30 * second });
    mark_at = noon - 30 * second;
    source_at = noon - 30 * second;
  };
  was = true;
  protected = false;
  now = noon - 30 * second;
}

abbrev last_beat : Beat fixed
last_beat = record { store = store; was = true; protected = false; now = noon }

abbrev between : State fixed
between = (beat fixed first_beat.store true false (noon - 30 * second) cut_state).0

beat_recovers_example :
    (since : ℕ) × (since + 30 * second ≤ noon)
    × (good fixed store noon ≡ true)
    × GoodFrom fixed since (first_beat ∷ [])
unfolding beat recover paused count_time covered sampled good quote_valid instrument_valid
    funding_known expire_all
beat_recovers_example =
    beat_recovers fixed {bs = first_beat ∷ []} {s = between} last_beat
      (beaten first_beat (cleared cut_state refl)) refl refl

-- A settlement that charges the open trade: 9 contracts, at a mark price of 100 and a rate of 1%.
abbrev entry_fill : Fill fixed
entry_fill = record {
  number = 1;
  trade_id = ("0a", "risk", "s1");
  group = "risk";
  kind = "open";
  side = "buy";
  at = noon;
  price = pos 1000200;
  quantity = pos 90000;
  fee = pos 4500;
  slippage = pos 1800;
  quote = calm;
}

abbrev books : Books fixed
books = record {
  state = record running {
    accounts = record waiting { position = some fresh; pending = none } ∷ [];
  };
  settlements = [];
  charges = [];
  trades = fresh ∷ [];
  fills = entry_fill ∷ [];
  conflicts = [];
}

abbrev due_funding : Funding fixed
due_funding = record {
  at = noon + hour;
  acquired = noon + hour;
  rate = pos 100;
  mark = pos 1000000;
}

abbrev charged : List (FundingEntry fixed) → List ℤ
charged [] = []
charged (c ∷ cs) = c.amount ∷ charged cs

settle_charges :
    charged (settle fixed true (due_funding ∷ []) (noon + 2 * hour) books).0.charges
    ≡ negsuc 89999 ∷ []
unfolding settle
settle_charges = refl

settle_succeeds : (settle fixed true (due_funding ∷ []) (noon + 2 * hour) books).1 ≡ true
unfolding settle
settle_succeeds = refl

settle_again_example :
    let first = (settle fixed true (due_funding ∷ []) (noon + 2 * hour) books).0 in
    let second = settle fixed true (due_funding ∷ []) (noon + 2 * hour) first in
    (second.1 ≡ true)
    × (second.0.settlements ≡ first.settlements)
    × (second.0.charges ≡ first.charges)
    × (second.0.trades ≡ first.trades)
    × (second.0.state.accounts ≡ first.state.accounts)
settle_again_example =
    settle_again fixed fixed_laws true (due_funding ∷ []) (noon + 2 * hour) books settle_succeeds
