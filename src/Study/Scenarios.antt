-- ===== src/Study/Scenarios.antt =====
-- A concrete assignment: two rises, and three signals of which one is too late for both; and one
-- rise found in candles.
use tidal_crypto_intelligenc.Base.{
  ℕ, ◌+◌, ◌-◌, ◌*◌, ◌/◌, ◌≡◌, refl, ltb, leb, if◌then◌else◌, some, unix, unix_epoch, none, List, [],
  ◌∷◌, String, hour, minute, arith,
}
use tidal_crypto_intelligenc.Base.Integers.{pos_part}
use tidal_crypto_intelligenc.Study.{Episode, Signal, EventMatch, match_episodes}
use tidal_crypto_intelligenc.Study.Prices.{Floats, Candles, price_episodes}
use tidal_crypto_intelligenc.Study.Prices.Spacing.{Spaced, price_episodes-Spaced}
use tidal_crypto_intelligenc.Study.Account.{Distinct, match_episodes_accounts}

abbrev start : ℕ
start = 1000 * hour

abbrev rise : String → ℕ → Episode
rise id at = record { id = id; direction = "buy"; start = at; detected = at + 10 * minute }

abbrev signal_at : String → ℕ → Signal
signal_at id at = record { id = id; direction = "buy"; at = at; stage = none; following = none }

abbrev rises : List Episode
rises = rise "e1" start ∷ rise "e2" (start + 12 * hour) ∷ []

abbrev three : List Signal
three =
    signal_at "s3" (start + 20 * hour)
    ∷ signal_at "s1" (start - hour)
    ∷ signal_at "s2" (start + 13 * hour)
    ∷ []

abbrev timings : List EventMatch → List String
timings [] = []
timings (m ∷ ms) = m.timing ∷ timings ms

timings_of_rises : timings (match_episodes rises three none).matches ≡ "early" ∷ "following" ∷ []
unfolding match_episodes
timings_of_rises = refl

three-Distinct : Distinct three
three-Distinct = (omega arith, (omega arith, (omega arith, tt)))

match_episodes_accounts_example :
    let r = match_episodes rises three none in
    (r.early + r.following + r.missed ≡ 2) × (r.early + r.following + r.pending + r.unmatched ≡ 3)
match_episodes_accounts_example = match_episodes_accounts rises three none three-Distinct

-- Numbers for floats: the price leaves its range ten minutes before `dawn`.
abbrev pub numbers : Floats
numbers = record {
  Float = ℕ;
  nought = 0;
  infinity = 1000000;
  less = ltb;
  greater_of = λ a b. if ltb a b then b else a;
  smaller_of = λ a b. if ltb a b then a else b;
  at_least = λ a b. leb b a;
  of_int = pos_part;
  to_int = λ n. n;
  hundredths = λ n. n / 100;
  add = λ a b. a + b;
  sub = λ a b. a - b;
  mul = λ a b. a * b;
  div = λ a b. a / b;
}

abbrev pub dawn : ℕ
dawn = unix_epoch + 1000 * hour

abbrev candles : Candles numbers
candles s = some (
    if ltb s (unix dawn - 600)
    then record { high = 100; low = 90; close = 95 }
    else record { high = 110; low = 100; close = 110 })

abbrev directions : List Episode → List String
directions [] = []
directions (e ∷ es) = e.direction ∷ directions es

-- The rise is seen once in the half hour.
episodes_of_dawn :
    directions (price_episodes numbers (λ side at. "id") candles dawn (dawn + 30 * minute))
    ≡ "buy" ∷ []
unfolding price_episodes
episodes_of_dawn = refl

price_episodes-Spaced_example :
    Spaced (price_episodes numbers (λ side at. "id") candles dawn (dawn + 30 * minute))
price_episodes-Spaced_example =
    price_episodes-Spaced numbers candles (λ side at. "id") dawn (dawn + 30 * minute) (omega arith)
