-- ===== src/Orders/Scenarios.antt =====
-- A concrete ledger of orders: a finished order is not active again by an older answer.
use tidal_crypto_intelligenc.Base.{
  if◌then◌else◌, ◌==◌, ℕ, ◌*◌, ◌≡◌, refl, false, none, some, [], ◌∷◌, String, arith, hour, length,
}
use tidal_crypto_intelligenc.Base.Integers.{ℤ, pos}
use tidal_crypto_intelligenc.Paper.Scenarios.Fixed.{fixed}
use tidal_crypto_intelligenc.Orders.{
  LargeOrder, Tracked, Source, order_key, find_order, Tables, Outside, ingest,
}
use tidal_crypto_intelligenc.Orders.Forward.{Onward, ingest-Onward}

abbrev no_number : String → ℤ
no_number s = pos 0

abbrev outside : Outside fixed no_number
outside = record {
  digest = λ r. if r.raw_state == 1 then "active" else "finished";
  size = λ t. length t.tracked;
}

abbrev book : Source
book = record { source = "s"; market = "spot"; venue = "v"; symbol = "BTC" }

abbrev order_in : ℕ → ℕ → LargeOrder
order_in state at = record {
  id = "7";
  side = "buy";
  price = "1";
  quantity = "1";
  executed_quantity = none;
  executed_usd = "0";
  raw_state = state;
  changed = some at;
  ended = none;
}

abbrev nothing : Tables fixed no_number
nothing = record { tracked = []; events = [] }

-- The order is seen, ends, and is answered once more as it was before.
abbrev after_two : Tables fixed no_number
after_two =
    ingest fixed no_number outside book false (order_in 2 (2 * hour) ∷ []) (2 * hour)
      (ingest fixed no_number outside book false (order_in 1 hour ∷ []) hour nothing)

abbrev finished : Tracked
finished = record {
  first_seen = hour;
  key = order_key book (order_in 2 hour);
  order = order_in 2 (2 * hour);
  seen = 2 * hour;
  fact_at = 2 * hour;
  revision = "finished";
}

abbrev again : Tables fixed no_number
again = ingest fixed no_number outside book false (order_in 1 hour ∷ []) (3 * hour) after_two

order_stays_finished : find_order "s:spot:v:BTC:7" again.tracked ≡ some finished
unfolding ingest
order_stays_finished = refl

ingest-Onward_example :
    (v : Tracked) × (find_order "s:spot:v:BTC:7" again.tracked ≡ some v) × Onward finished v
unfolding ingest
ingest-Onward_example =
    ingest-Onward fixed no_number outside book false (order_in 1 hour ∷ []) (3 * hour) after_two
      "s:spot:v:BTC:7" finished (omega arith, tt) refl
