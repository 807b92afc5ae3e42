-- ===== src/Vix/Cycle.antt =====
-- `evaluateVIX` (internal/datahub/vix_store.go): the alert cycle. The id of a new cycle, which the
-- source takes from the package uuid, is an argument. An event's id is kept as its parts, the
-- cycle and the level.
use tidal_crypto_intelligenc.Base.{
  ℕ, ◌+◌, ◌*◌, Bool, true, false, not, ◌&&◌, ◌||◌, leb, ltb, ◌==◌, if◌then◌else◌, Option, none,
  some, String, str_eq, minute, List, [], ◌∷◌,
}
use tidal_crypto_intelligenc.Paper.Decimal.{DecimalOps}
use tidal_crypto_intelligenc.Vix.{Point, Level, low, elevated, watch, priority, level_of}

pub record State : Type 0 where
  pub email_enabled : Bool
  pub ever_enabled : Bool
  pub first_observation : Bool
  pub last_point : Option Point
  pub cycle_id : String
  pub cycle_started_at : Option ℕ
  pub low_since : Option ℕ
  pub watch_recorded : Bool
  pub priority_recorded : Bool

pub record Event : Type 0 where
  pub cycle_id : String
  pub level : Level
  pub value : String
  pub observed_at : ℕ
  pub detected_at : ℕ
  pub trading_date : String
  pub initial : Bool

pub record Notice : Type 0 where
  pub cycle_id : String
  pub level : Level
  pub created : ℕ
  pub status : String

-- The rows of `vix_events` and of `notices` (those of the VIX), newest first.
pub record Tables : Type 0 where
  pub events : List Event
  pub notices : List Notice

-- `h.offline`, and whether there is a mail account.
pub record Delivery : Type 0 where
  pub offline : Bool
  pub mail : Bool

abbrev pub is_high : Level → Bool
is_high low = false
is_high elevated = false
is_high watch = true
is_high priority = true

abbrev pub is_priority : Level → Bool
is_priority priority = true
is_priority _ = false

abbrev pub same_level : Level → Level → Bool
same_level low low = true
same_level elevated elevated = true
same_level watch watch = true
same_level priority priority = true
same_level _ _ = false

-- The point is not newer than the last.
abbrev pub not_newer : Option Point → Point → Bool
not_newer none p = false
not_newer (some l) p = leb p.at l.at

-- It corrects the last.
abbrev pub corrects : Option Point → Point → Bool
corrects none p = false
corrects (some l) p = p.at == l.at && not (str_eq p.value l.value)

-- More than five minutes lie between.
abbrev pub interrupted : Option Point → Point → Bool
interrupted none p = false
interrupted (some l) p = ltb (l.at + 5 * minute) p.at

abbrev pub since : Option ℕ → ℕ → ℕ
since none at = at
since (some t) at = t

abbrev pub no_cycle : State → State
no_cycle s = record s {
  cycle_id = "";
  cycle_started_at = none;
  low_since = none;
  watch_recorded = false;
  priority_recorded = false;
}

-- A value below the bands: the cycle ends after 30 minutes of them.
unfoldable pub cool : Point → State → State
cool p s =
    let t = since s.low_since p.at in
    if str_eq s.cycle_id ""
    then s
    else if leb (t + 30 * minute) p.at
    then no_cycle s
    else record s { low_since = some t }

unfoldable pub supersede : String → List Notice → List Notice
supersede cycle [] = []
supersede cycle (n ∷ ns) =
    let rest = supersede cycle ns in
    if str_eq n.cycle_id cycle && same_level n.level watch && str_eq n.status "pending"
    then record n { status = "superseded" } ∷ rest
    else n ∷ rest

abbrev pub notice_status : Bool → Delivery → String
notice_status email d =
    if not email
    then "disabled"
    else if d.offline
    then "offline"
    else if not d.mail
    then "unconfigured"
    else "pending"

-- The cycle that an alert belongs to: the open one, or a new one.
abbrev pub enter_cycle : String → ℕ → State → State
enter_cycle fresh at s =
    if str_eq s.cycle_id "" then record s { cycle_id = fresh; cycle_started_at = some at } else s

-- The band's alert was given in this cycle.
abbrev pub alerted : Level → State → Bool
alerted l s = if is_priority l then s.priority_recorded else s.watch_recorded

-- A value in a band: an alert, unless the cycle has had it.
unfoldable pub alert :
    String → ℕ → Delivery → Bool → Level → Point → State → Tables → State × Tables
unfolding supersede
alert fresh now d initial l p s t =
    let entered = enter_cycle fresh p.at s in
    let after = record entered {
      watch_recorded = true;
      priority_recorded = entered.priority_recorded || is_priority l;
    } in
    let event : Event = record {
      cycle_id = after.cycle_id;
      level = l;
      value = p.value;
      observed_at = p.at;
      detected_at = now;
      trading_date = p.trading_date;
      initial = initial;
    } in
    let notice : Notice = record {
      cycle_id = after.cycle_id;
      level = l;
      created = now;
      status = notice_status s.email_enabled d;
    } in
    let old = if is_priority l then supersede after.cycle_id t.notices else t.notices in
    if alerted l s
    then (s, t)
    else (after, record { events = event ∷ t.events; notices = notice ∷ old })

-- A new point, with its level.
unfoldable pub observe : String → ℕ → Delivery → Level → Point → State → Tables → State × Tables
unfolding cool alert
observe fresh now d l p s t =
    let kept = if interrupted s.last_point p then record s { low_since = none } else s in
    let seen = record kept { last_point = some p; first_observation = false } in
    if is_high l
    then alert fresh now d s.first_observation l p (record seen { low_since = none }) t
    else (cool p seen, t)

-- An old point, which may correct the last.
unfoldable pub revise : Point → State → State
revise p s =
    if corrects s.last_point p then record s { low_since = none; last_point = some p } else s

module _ (D : DecimalOps) (dec : String → D.Decimal) where
  unfoldable pub evaluate : String → ℕ → Delivery → Point → State → Tables → State × Tables
  unfolding observe revise level_of
  evaluate fresh now d p s t =
      if not_newer s.last_point p
      then (revise p s, t)
      else observe fresh now d (level_of D dec p.value) p s t
