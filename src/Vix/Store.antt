-- ===== src/Vix/Store.antt =====
-- `vixFailure`, `ingestVIX` and `SetVIXSettings` (internal/datahub/vix_store.go): each is one
-- transaction under `vixMu`.
use tidal_crypto_intelligenc.Base.{
  ℕ, ◌+◌, ◌*◌, Bool, true, false, not, ◌&&◌, ◌||◌, leb, ltb, ◌==◌, if◌then◌else◌, Option, none,
  some, String, str_eq, hour, unix, List, [], ◌∷◌,
}
use tidal_crypto_intelligenc.Paper.Decimal.{DecimalOps, at_most}
use tidal_crypto_intelligenc.Vix.{Point, Feed, Local, is_delayed, quality}
use tidal_crypto_intelligenc.Vix.Cycle.{State, Notice, Tables, Delivery, no_cycle, evaluate}

-- A row of `vix_minute`.
pub record Minute : Type 0 where
  pub ts : ℕ
  pub trade_date : String
  pub value : String
  pub fetched : ℕ

-- The feed of the source `sina`, the state and the tables.
pub record Db : Type 0 where
  pub feed : Feed
  pub state : State
  pub minutes : List Minute
  pub tables : Tables

-- `INSERT ... ON CONFLICT(ts) DO UPDATE ... WHERE value<>excluded.value`.
unfoldable pub put_minute : Minute → List Minute → List Minute
put_minute m [] = m ∷ []
put_minute m (n ∷ ns) =
    let rest = put_minute m ns in
    if n.ts == m.ts
    then (if str_eq n.value m.value then n else record n { value = m.value; fetched = m.fetched })
      ∷ ns
    else n ∷ rest

-- The points of the last 30 days are kept.
unfoldable pub put_minutes : ℕ → List Point → List Minute → List Minute
unfolding put_minute
put_minutes now [] ms = ms
put_minutes now (p ∷ ps) ms = put_minutes now ps (
    if ltb (p.at + 720 * hour) now
    then ms
    else put_minute
        (record {
          ts = unix p.at;
          trade_date = p.trading_date;
          value = p.value;
          fetched = unix now;
        })
        ms)

abbrev pub last_of : Point → List Point → Point
last_of p [] = p
last_of p (q ∷ qs) = last_of q qs

abbrev pub goes_back : Option Point → Point → Bool
goes_back none p = false
goes_back (some l) p = ltb p.at l.at

-- `UPDATE notices SET status='disabled' ... AND status='pending'`.
unfoldable pub disable : List Notice → List Notice
disable [] = []
disable (n ∷ ns) =
    let rest = disable ns in
    if str_eq n.status "pending" then record n { status = "disabled" } ∷ rest else n ∷ rest

-- `vixFailure` for the source `sina`.
unfoldable pub failure : String → ℕ → Db → Db
failure message now b = record b {
  feed = record b.feed { error = message; attempted_at = some now };
  state = record b.state { low_since = none };
}

module _ (D : DecimalOps) (dec : String → D.Decimal) (local : ℕ → Local) where
  -- A known value of 30 or more, from the start of the low interval to the newest point.
  unfoldable pub disproved : ℕ → ℕ → List Point → Bool
  disproved from to [] = false
  disproved from to (p ∷ ps) =
      leb from p.at && leb p.at to && at_most D (dec "30") (dec p.value) || disproved from to ps

  abbrev pub checked_low : Option ℕ → ℕ → List Point → Option ℕ
  checked_low none to ps = none
  checked_low (some from) to ps = if disproved from to ps then none else some from

  -- The points `first ∷ more`, of which the last is evaluated; an empty list is an error at once.
  -- The result is `none` where the source returns an error.
  unfoldable pub ingest : String → Bool → ℕ → Delivery → Point → List Point → Db → Option Db
  unfolding disproved put_minutes
  ingest fresh paused now d first more b =
      let p = last_of first more in
      let feed : Feed = record {
        latest = some p;
        fetched_at = some now;
        attempted_at = some now;
        error = "";
      } in
      let low = checked_low b.state.low_since p.at (first ∷ more) in
      let s = record b.state { low_since = low } in
      let r = evaluate D dec fresh now d p s b.tables in
      let minutes = put_minutes now (first ∷ more) b.minutes in
      if paused || goes_back b.feed.latest p
      then none
      else if is_delayed (quality local feed now)
      then some (record { feed = feed; state = r.0; minutes = minutes; tables = r.1 })
      else some (record {
        feed = feed;
        state = record s { low_since = none };
        minutes = minutes;
        tables = b.tables;
      })

  -- The first observation after the first opt-in.
  abbrev pub opted_in :
      String → ℕ → Delivery → Bool → Option Point → State → Tables → State × Tables
  opted_in fresh now d true (some p) s t =
      evaluate D dec fresh now d p (record s { first_observation = true }) t
  opted_in fresh now d _ _ s t = (s, t)

  -- `SetVIXSettings`.
  unfoldable pub set_settings : String → ℕ → Delivery → Bool → Db → Db
  unfolding disable
  set_settings fresh now d enabled b =
      let s = record b.state { email_enabled = enabled } in
      let begun = record (no_cycle s) {
        ever_enabled = true;
        first_observation = false;
        last_point = none;
      } in
      let r =
        if enabled && not s.ever_enabled
        then opted_in fresh now d (is_delayed (quality local b.feed now)) b.feed.latest begun
            b.tables
        else (s, b.tables) in
      let notices = if enabled then r.1.notices else disable r.1.notices in
      record b { state = r.0; tables = record (r.1) { notices = notices } }
