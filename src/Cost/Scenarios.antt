-- ===== src/Cost/Scenarios.antt =====
-- Concrete runs of the watch on the cost, on the fixed-point decimals: a case above 100, confirmed by
-- two days.
use tidal_crypto_intelligenc.Base.{
  ℕ, ◌+◌, ◌-◌, ◌*◌, ◌≤◌, ◌≡◌, refl, true, false, if◌then◌else◌, none, some, List, [], ◌∷◌, String,
  str_eq, hour, count,
}
use tidal_crypto_intelligenc.Base.Integers.{ℤ, pos}
use tidal_crypto_intelligenc.Paper.Scenarios.Fixed.{fixed}
use tidal_crypto_intelligenc.Cost.{
  Zone, Price, Event, Digests, Case, Metrics, watching, waiting, day_length,
}
use tidal_crypto_intelligenc.Cost.Advance.{beyond}
use tidal_crypto_intelligenc.Cost.Structure.{State, Inputs, advance}
use tidal_crypto_intelligenc.Cost.Distinct.{Apart, advance-Apart}
use tidal_crypto_intelligenc.Cost.Confirmation.Runs.{Day, Among, follow, follow-confirmed}
use tidal_crypto_intelligenc.Cost.Confirmation.Once.{confirms, chances, follow-confirms_once}

abbrev parse : String → ℤ
parse s =
    if str_eq s "100"
    then pos 1000000
    else if str_eq s "101"
    then pos 1010000
    else if str_eq s "102"
    then pos 1020000
    else if str_eq s "90"
    then pos 900000
    else if str_eq s "1"
    then pos 10000
    else pos 0

abbrev digests : Digests
digests = record {
  of_cycle = λ g t r. "cycle";
  of_case = λ y l h d b. "case";
  of_event = λ c k t. k;
  of_initial = λ y. "initial";
  of_structure = λ d t. "structure";
}

-- A day in 2009.
abbrev first_day : ℕ
first_day = 733500

abbrev zone : Zone
zone = record { side = "above"; low = "90"; high = "100" }

abbrev above : Case fixed
above = record {
  id = "c";
  group = "onchain";
  cycle = "y";
  zone = zone;
  direction = "up";
  buffer = "0";
  boundary = pos 1000000;
  frozen_at = first_day * day_length;
  from = first_day;
  through = first_day + 6;
  last_date = 0;
  confirmed_date = 0;
  track_through = 0;
  phase = watching;
  quality = waiting;
  count = 0;
  method = "m";
  first_price = "";
  first_detected_at = none;
  last_price = "";
  first_tracking_gap = 0;
  invalidated_date = 0;
  invalidated_at = none;
  shadow = false;
  legacy = false;
}

abbrev price_on : ℕ → String → Price
price_on date v = record { date = date; value = v; revision = "r" }

abbrev day_with : ℕ → String → Day
day_with date v = record {
  price = some (price_on date v);
  expected = date;
  now = (date + 1) * day_length + hour;
}

abbrev two_days : List Day
two_days = day_with first_day "101" ∷ day_with (first_day + 1) "102" ∷ []

abbrev kinds : List Event → List String
kinds [] = []
kinds (e ∷ es) = e.kind ∷ kinds es

events_of_two_days :
    kinds (follow fixed parse digests above two_days).1 ≡ "pending" ∷ "confirmed" ∷ []
unfolding follow
events_of_two_days = refl

-- A day without a price between the two breaks the count.
events_of_a_gap :
    kinds
      (follow fixed parse digests above
        (day_with first_day "101" ∷ day_with (first_day + 2) "102" ∷ [])).1
    ≡ "pending" ∷ "pending" ∷ []
unfolding follow
events_of_a_gap = refl

follow-confirmed_example :
    (p : Price) × (q : Price) × Among two_days p
    × Among two_days q
    × (p.date + 1 ≡ q.date)
    × (beyond fixed parse above p.value ≡ true)
    × (beyond fixed parse above q.value ≡ true)
unfolding follow
follow-confirmed_example = follow-confirmed fixed parse digests above two_days refl refl refl

follow-confirms_once_example :
    let r = follow fixed parse digests above two_days in
    (count confirms r.1 ≤ 1) × (count confirms r.1 + chances r.0.phase ≤ 1)
follow-confirms_once_example = follow-confirms_once fixed parse digests above two_days

abbrev metrics : Metrics fixed
metrics = record { concentration_rank = none; volatility_rank = none; zones = zone ∷ zone ∷ [] }

abbrev inputs : Inputs fixed
inputs = record {
  frame = some (record { date = first_day - 1; price = "100"; method = "m"; revision = "r" });
  metrics = some metrics;
  price = some (price_on (first_day - 1) "100");
  prices = λ d. none;
  now = first_day * day_length + hour;
  structure = true;
}

abbrev idle : State fixed
idle = record {
  rules = "";
  cycle = "";
  frozen_at = 0;
  from = 0;
  through = 0;
  revision = "";
  last_date = 0;
  watches = [];
  compression = false;
  meet = 0;
  clear = 0;
  initial = false;
  cases = [];
  episode_id = "";
  structure_last_date = 0;
  baseline_through = 0;
  low_meet = 0;
  low_clear = 0;
  low_active = false;
  low_last_date = 0;
  enabled_at = 0;
}

abbrev buffers_of : List (Case fixed) → List String
buffers_of [] = []
buffers_of (c ∷ cs) = c.buffer ∷ buffers_of cs

-- The zone that comes twice opens one case for each buffer.
cases_of_one_cycle : buffers_of (advance fixed parse digests inputs idle).0.cases ≡ "0" ∷ "0.5" ∷ []
unfolding advance
cases_of_one_cycle = refl

advance-Apart_example : Apart fixed parse (advance fixed parse digests inputs idle).0.cases
advance-Apart_example = advance-Apart fixed parse digests inputs idle tt
