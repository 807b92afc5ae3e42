-- ===== src/Vix.antt =====
-- The watch on the VIX index (internal/datahub/vix_store.go and vix_source.go): feeds, the alert
-- cycle and its events. A statement of the database that fails rolls the whole operation back, and
-- is not modelled. The texts that explain a feed's quality are left out.
pub mod Cycle
pub mod Store
pub mod Alerts
mod Scenarios
use tidal_crypto_intelligenc.Base.{
  ℕ, ◌+◌, ◌-◌, ◌*◌, Bool, true, false, not, ◌&&◌, ◌||◌, leb, ltb, if◌then◌else◌, Option, none, some,
  String, str_eq, minute, second,
}
use tidal_crypto_intelligenc.Paper.Decimal.{DecimalOps, at_most}

pub record Point : Type 0 where
  pub at : ℕ
  pub value : String
  pub trading_date : String

pub record Feed : Type 0 where
  pub latest : Option Point
  pub fetched_at : Option ℕ
  pub attempted_at : Option ℕ
  pub error : String

pub data Level : Type 0 where
  low elevated watch priority : Level

-- A time's parts in New York, by the time-zone database: the weekday (Sunday is 0), the hour and
-- the minute.
pub record Local : Type 0 where
  pub weekday : ℕ
  pub hour_of : ℕ
  pub minute_of : ℕ

abbrev pub source_ttl : ℕ
source_ttl = 25 * minute

abbrev pub fetch_ttl : ℕ
fetch_ttl = 2 * minute

pub data Quality : Type 0 where
  failed missing closed stale delayed : Quality

abbrev pub is_delayed : Quality → Bool
is_delayed delayed = true
is_delayed _ = false

-- What the source takes from outside: decimals, reading them from text (zero for a text that is no
-- number), and the local time in New York.
module _ (D : DecimalOps) (dec : String → D.Decimal) where
  -- `vixLevel`.
  unfoldable pub level_of : String → Level
  level_of value =
      let v = dec value in
      if D.less (dec "40") v
      then priority
      else if at_most D (dec "30") v
      then watch
      else if at_most D (dec "20") v
      then elevated
      else low

module _ (local : ℕ → Local) where
  -- `vixSession`: weekdays, in minutes of the day.
  unfoldable pub session : ℕ → Bool
  session at =
      let t = local at in
      let m = t.hour_of * 60 + t.minute_of in
      not (leb 6 t.weekday || leb t.weekday 0) && (leb 195 m && leb m 565 || leb 570 m && leb m 975)

  unfoldable pub fast_poll : ℕ → Bool
  unfolding session
  fast_poll at = session at || session (at - 25 * minute)

  abbrev pub quality_at : Point → ℕ → ℕ → Quality
  quality_at p fetched now =
      if ltb (now + 30 * second) p.at || ltb (now + 30 * second) fetched || not (session p.at)
      then failed
      else if ltb (p.at + source_ttl) now
      then if fast_poll now then stale else closed
      else if ltb (fetched + fetch_ttl) now
      then stale
      else delayed

  abbrev pub quality_seen : Option Point → Option ℕ → ℕ → Quality
  quality_seen (some p) (some fetched) now = quality_at p fetched now
  quality_seen _ _ now = missing

  -- `vixQuality`, without the explanation.
  unfoldable pub quality : Feed → ℕ → Quality
  unfolding session fast_poll
  quality f now = if str_eq f.error "" then quality_seen f.latest f.fetched_at now else failed
