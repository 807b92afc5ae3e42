-- ===== src/Radar/Apply.antt =====
-- `radarApply` (internal/datahub/radar_engine.go): a wallet's fills and its account, in one
-- transaction. `none` is an error, which rolls all of it back.
use tidal_crypto_intelligenc.Base.{
  ℕ, ◌+◌, ◌*◌, Bool, not, ◌&&◌, ◌||◌, leb, ltb, ◌==◌, if◌then◌else◌, Option, none, some, List, [],
  ◌∷◌, String, str_eq, hour, is_zero,
}
use tidal_crypto_intelligenc.Paper.Decimal.{DecimalOps}
use tidal_crypto_intelligenc.Radar.{Fill, Wallet, Account, Reading, Event, Position}
use tidal_crypto_intelligenc.Radar.Fills.{
  find_event, put_event, Chain, Surroundings, set_at, take_fills,
}
use tidal_crypto_intelligenc.Radar.Evidence.{
  Notice, Trial, Check, bind, verify, funded, deposits, alert_both, freeze,
}

-- Before now by more than seven days.
abbrev pub long_ago : ℕ → ℕ → Bool
long_ago now t = ltb (t + 168 * hour) now

abbrev pub dated : ℕ → Bool → Option ℕ → String
dated now complete none = "unknown"
dated now complete (some t) =
    if long_ago now t then "established" else if complete then "recent" else "unknown"

-- `radarAge`.
unfoldable pub age_of : ℕ → Wallet → String
age_of now w =
    if not (is_zero w.first_seen) && long_ago now w.first_seen
    then "established"
    else dated now w.history_complete w.earliest

abbrev pub earlier : Option ℕ → Option ℕ → Option ℕ
earlier none o = o
earlier (some p) none = some p
earlier (some p) (some t) = if ltb p t then some p else some t

-- What is known of the wallet from before.
abbrev pub merged : Option Wallet → Wallet → Wallet
merged none w = w
merged (some prior) w = record w {
  first_seen = prior.first_seen;
  earliest = earlier prior.earliest w.earliest;
}

-- `sort.SliceStable` by time.
unfoldable pub insert_fill : Fill → List Fill → List Fill
insert_fill f [] = f ∷ []
insert_fill f (g ∷ gs) =
    let rest = g ∷ insert_fill f gs in if leb f.time g.time then f ∷ g ∷ gs else rest

unfoldable pub sort_fills : List Fill → List Fill
unfolding insert_fill
sort_fills [] = []
sort_fills (f ∷ fs) = insert_fill f (sort_fills fs)

module _ (D : DecimalOps) where
  -- The store: rows by the wallet's address, and the tables of all wallets.
  pub record Db : Type 0 where
    pub wallets : String → Option Wallet
    pub positions : String → String → Position D
    pub fills : String → List Fill
    pub events : List (Event D)
    pub outbox : List (Notice D)
    pub trials : List (Trial D)

  -- What an application reads: the clock, the process's start, the store's limits, the exchange
  -- rate, and the digest of event ids.
  pub record Input : Type 0 where
    pub now : ℕ
    pub boot : ℕ
    pub full : Bool
    pub fx : Option D.Decimal
    pub event_id : String → Fill → String

  -- The episode of a position, if it is stored.
  abbrev pub load_event : Option (Event D) → List (Event D) → List (Event D)
  load_event none vs = vs
  load_event (some v) vs = put_event D v vs

  abbrev pub open_events : List (Event D) → Position D → List (Event D) → List (Event D)
  open_events stored p vs =
      if str_eq p.event "" then vs else load_event (find_event D p.event stored) vs

  abbrev pub start : String → Db → Chain D
  start address b = record {
    positions = b.positions address;
    events =
        open_events b.events (b.positions address "ETH")
          (open_events b.events (b.positions address "BTC") []);
    intact = λ asset. str_eq asset "BTC" || str_eq asset "ETH";
    fills = b.fills address;
  }

  abbrev pub surroundings : Input → Wallet → Db → Surroundings D
  surroundings i w b = record {
    now = i.now;
    boot = i.boot;
    address = w.address;
    age = w.age;
    fx = i.fx;
    stored = b.events;
    event_id = i.event_id;
  }

  -- The tables that an evaluation writes.
  pub record Tables : Type 0 where
    pub events : List (Event D)
    pub outbox : List (Notice D)
    pub trials : List (Trial D)

  module _ (R : Reading D) where
    abbrev pub settle_event : ℕ → Event D → Tables → Tables
    settle_event now v t =
        let r = alert_both D R now v t.outbox in
        record {
          events = put_event D r.0 t.events;
          outbox = r.1;
          trials = freeze D R now r.0 t.trials;
        }

    -- One round of the loop over the episodes.
    unfoldable pub evaluate : Check D → Event D → Tables → Option Tables
    unfolding verify deposits alert_both freeze put_event
    evaluate k v t = bind D (verify D R k v) (λ u.
        bind D (funded D R k u k.fx k.wallet.ledger_complete) (λ x. some (settle_event k.now x t)))

    abbrev pub check_of : Input → Wallet → Account → Chain D → Event D → Check D
    check_of i w a c v = record {
      now = i.now;
      wallet = w;
      account = a;
      fx = i.fx;
      position = c.positions v.asset;
      intact = c.intact v.asset;
    }

    unfoldable pub evaluate_all :
        Input → Wallet → Account → Chain D → List (Event D) → Tables → Option Tables
    unfolding evaluate
    evaluate_all i w a c [] t = some t
    evaluate_all i w a c (v ∷ vs) t =
        bind D (evaluate (check_of i w a c v) v t) (λ u. evaluate_all i w a c vs u)

    -- A position without a fill is not stored.
    abbrev pub kept : Position D → Position D → Position D
    kept old new = if new.last == 0 then old else new

    abbrev pub stored_back : Wallet → Db → Chain D → Tables → Db
    stored_back w b c t = record {
      wallets = set_at D w.address (some w) b.wallets;
      positions =
          set_at D w.address (λ asset. kept (b.positions w.address asset) (c.positions asset))
            b.positions;
      fills = set_at D w.address c.fills b.fills;
      events = t.events;
      outbox = t.outbox;
      trials = t.trials;
    }

    abbrev pub known : Input → Wallet → Db → Wallet
    known i w b =
        let m = record (merged (b.wallets w.address) w) { updated = i.now } in
        record m { age = age_of i.now m }

    unfoldable pub apply : Input → Wallet → List Fill → Account → Db → Option Db
    unfolding age_of sort_fills take_fills evaluate_all
    apply i w fills a b =
        let x = known i w b in
        let tables : Tables = record { events = b.events; outbox = b.outbox; trials = b.trials } in
        if i.full
        then none
        else bind D (take_fills D R (surroundings i x b) (sort_fills fills) (start w.address b))
            (λ c. bind D (evaluate_all i x a c c.events tables) (λ t. some (stored_back x b c t)))
