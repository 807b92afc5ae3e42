-- ===== src/Radar/Scenarios.antt =====
-- Concrete runs of the radar, on the fixed-point decimals: a wallet deposits, opens a long of
-- 1.5 million dollars, and the account confirms it.
use tidal_crypto_intelligenc.Base.{
  ℕ, ◌+◌, ◌-◌, ◌*◌, ◌/◌, if◌then◌else◌, ◌||◌, ◌≡◌, refl, Bool, true, false, List, [], ◌∷◌, Option,
  none, some, String, arith, str_eq, unix_epoch, hour,
}
use tidal_crypto_intelligenc.Base.Integers.{ℤ, pos, negsuc}
use tidal_crypto_intelligenc.Paper.Scenarios.Fixed.{fixed, fixed_laws}
use tidal_crypto_intelligenc.Radar.{Fill, Account, Wallet, Reading, Event, Position, radar_time}
use tidal_crypto_intelligenc.Radar.Transition.{opened_by}
use tidal_crypto_intelligenc.Radar.Fills.{Chain, Surroundings, take_fills, fresh_event}
use tidal_crypto_intelligenc.Radar.Evidence.{Notice, Check}
use tidal_crypto_intelligenc.Radar.Apply.{Db, Input, Tables, evaluate}
use tidal_crypto_intelligenc.Radar.Alerts.Application.{Call, apply_all}
use tidal_crypto_intelligenc.Radar.Replay.{take_fills_again}
use tidal_crypto_intelligenc.Radar.Transition.Exposure.{carried, opened_by-carried}

-- The texts of the run.
abbrev parse : String → Option (ℤ × Bool)
parse s =
    if str_eq s "0"
    then some (pos 0, true)
    else if str_eq s "30"
    then some (pos 300000, true)
    else if str_eq s "50000"
    then some (pos 500000000, true)
    else if str_eq s "200000"
    then some (pos 2000000000, true)
    else if str_eq s "1500000"
    then some (pos 15000000000, true)
    else none

abbrev in_cents : ℤ → ℕ
in_cents (pos n) = n / 100
in_cents (negsuc n) = 0

abbrev reading : Reading fixed
reading = record { read = parse; cents = in_cents }

abbrev at_fill : ℕ
at_fill = 1700000000000

abbrev now : ℕ
now = unix_epoch + 1700000060000 * 1000000

abbrev purchase : Fill
purchase = record {
  coin = "BTC";
  px = "50000";
  sz = "30";
  side = "B";
  start = "0";
  time = at_fill;
  negative_id = false;
  tid = 7;
  hash = "h";
}

abbrev wallet : Wallet
wallet = record {
  ledger_complete = true;
  address = "w";
  first_seen = now - hour;
  earliest = none;
  history_complete = false;
  age = "unknown";
  updated = now;
  ledger = record { time = at_fill - 60000; kind = "deposit"; usdc = "200000" } ∷ [];
}

abbrev account : Account
account = record {
  time = at_fill + 30000;
  equity = "200000";
  total = "1500000";
  positions =
      record { coin = "BTC"; size = "30"; value = "1500000"; entry = "50000"; liquidation = none }
      ∷ [];
}

abbrev no_position : Position fixed
no_position = record { size = pos 0; event = ""; last = 0 }

abbrev empty : Db fixed
empty = record {
  wallets = λ a. none;
  positions = λ a asset. no_position;
  fills = λ a. [];
  events = [];
  outbox = [];
  trials = [];
}

abbrev input : Input fixed
input = record {
  now = now;
  boot = now - hour;
  full = false;
  fx = some (pos 10000);
  event_id = λ a f. "e";
}

abbrev first_call : Call fixed reading
first_call = record { input = input; wallet = wallet; fills = purchase ∷ []; account = account }

abbrev kinds : List (Notice fixed) → List String
kinds [] = []
kinds (n ∷ ns) = n.kind ∷ kinds ns

-- Both alerts are queued.
alerts_of_one_call :
    kinds (apply_all fixed reading (first_call ∷ []) empty).outbox ≡ "opening" ∷ "priority" ∷ []
unfolding apply_all
alerts_of_one_call = refl

-- A second application of the same facts queues nothing.
alerts_of_two_calls :
    kinds (apply_all fixed reading (first_call ∷ first_call ∷ []) empty).outbox
    ≡ "opening" ∷ "priority" ∷ []
unfolding apply_all
alerts_of_two_calls = refl

abbrev around : Surroundings fixed
around = record {
  now = now;
  boot = now - hour;
  address = "w";
  age = "unknown";
  fx = some (pos 10000);
  stored = [];
  event_id = λ a f. "e";
}

abbrev chain_at : List (Event fixed) → Position fixed → List Fill → Chain fixed
chain_at vs p fs = record {
  positions = λ asset. if str_eq asset "BTC" then p else no_position;
  events = vs;
  intact = λ asset. str_eq asset "BTC" || str_eq asset "ETH";
  fills = fs;
}

abbrev or_empty : Option (Chain fixed) → Chain fixed
or_empty none = chain_at [] no_position []
or_empty (some k) = k

abbrev or_tables : Option (Tables fixed) → Tables fixed
or_tables none = record { events = []; outbox = []; trials = [] }
or_tables (some t) = t

-- The episode of the purchase.
abbrev episode : Event fixed
episode =
    record (fresh_event fixed around purchase
      (record { before = pos 0; after = pos 300000; opened = pos 300000 })) {
        through = radar_time at_fill;
        opened_quantity = pos 300000;
        opened_native = pos 15000000000;
        threshold = some (radar_time at_fill);
      }

abbrev taken : Chain fixed
taken = or_empty (take_fills fixed reading around (purchase ∷ []) (chain_at [] no_position []))

opened_by-carried_example :
    fixed.add (opened_by fixed (pos 100000) (pos 300000)) (carried fixed (pos 100000) (pos 300000))
    ≡ pos 300000
opened_by-carried_example = (opened_by-carried fixed fixed_laws (pos 100000) (pos 300000)).0

take_fills_again_example : take_fills fixed reading around (purchase ∷ []) taken ≡ some taken
unfolding take_fills
take_fills_again_example =
    take_fills_again fixed reading around around (purchase ∷ []) (chain_at [] no_position []) taken
      (omega arith) refl

abbrev tables_before : Tables fixed
tables_before = record { events = episode ∷ []; outbox = []; trials = [] }

-- The chain of fills is broken.
abbrev broken : Check fixed
broken = record {
  now = now;
  wallet = wallet;
  account = account;
  fx = some (pos 10000);
  position = record { size = pos 300000; event = "e"; last = at_fill };
  intact = false;
}

abbrev tables_after : Tables fixed
tables_after = or_tables (evaluate fixed reading broken episode tables_before)
