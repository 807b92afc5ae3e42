-- ===== src/Vix/Scenarios.antt =====
-- Concrete runs of the watch: a rise, a priority alert, and a return below the bands.
use tidal_crypto_intelligenc.Base.{
  ℕ, ◌+◌, ◌*◌, refl, true, false, [], ◌∷◌, none, some, String, str_eq, hour, minute, if◌then◌else◌,
}
use tidal_crypto_intelligenc.Base.Integers.{ℤ, pos}
use tidal_crypto_intelligenc.Paper.Scenarios.Fixed.{fixed}
use tidal_crypto_intelligenc.Vix.{Point, Local, Level}
use tidal_crypto_intelligenc.Vix.Cycle.{State, Tables, Delivery}
use tidal_crypto_intelligenc.Vix.Store.{Db, set_settings}
use tidal_crypto_intelligenc.Vix.Alerts.{IsSound, Once}
use tidal_crypto_intelligenc.Vix.Alerts.Runs.{opted, here, next, Reach-Once}

-- A reading of the texts that the runs use.
abbrev read : String → ℤ
read s =
    if str_eq s "40"
    then pos 400000
    else if str_eq s "30"
    then pos 300000
    else if str_eq s "20"
    then pos 200000
    else if str_eq s "35"
    then pos 350000
    else if str_eq s "45"
    then pos 450000
    else pos 150000

-- It is always Wednesday, at noon.
abbrev wednesday : ℕ → Local
wednesday at = record { weekday = 3; hour_of = 12; minute_of = 0 }

abbrev reading : ℕ → String → Point
reading at value = record { at = at; value = value; trading_date = "2025-01-01" }

abbrev quiet : State
quiet = record {
  email_enabled = false;
  ever_enabled = false;
  first_observation = false;
  last_point = none;
  cycle_id = "";
  cycle_started_at = none;
  low_since = none;
  watch_recorded = false;
  priority_recorded = false;
}

abbrev at_start : Db
at_start = record {
  feed = record {
    latest = some (reading hour "35");
    fetched_at = some hour;
    attempted_at = some hour;
    error = "";
  };
  state = quiet;
  minutes = [];
  tables = record { events = []; notices = [] };
}

abbrev delivery : Delivery
delivery = record { offline = false; mail = true }

abbrev opted_at_once : Db
opted_at_once = set_settings fixed read wednesday "c0" hour delivery true at_start

quiet-IsSound : IsSound quiet []
quiet-IsSound = record { once = tt; watched = λ a h. refl; prioritised = λ a h. refl }

Reach-Once_example : Once opted_at_once.tables.events
Reach-Once_example =
    Reach-Once fixed read wednesday quiet-IsSound
      (next here (opted "c0" hour delivery true (refl, refl)))

abbrev high : State
high = record quiet {
  cycle_id = "c1";
  last_point = some (reading (hour + 30 * minute) "15");
  low_since = some hour;
  watch_recorded = true;
}

abbrev pending : Tables
pending = record {
  events = [];
  notices =
      record { cycle_id = "c1"; level = Level.watch; created = hour; status = "pending" } ∷ [];
}
