-- ===== src/Radar/Evidence.antt =====
-- The second loop of `radarApply` (internal/datahub/radar_engine.go): an episode is checked against
-- the account, and alerts are queued (`radarQueueNotice`, radar_store.go) and frozen for the study
-- (`radarFreezeTrial`, radar_study.go, without the reference price).
use tidal_crypto_intelligenc.Base.{
  ℕ, ◌+◌, ◌*◌, Bool, true, false, not, ◌&&◌, ◌||◌, leb, ◌==◌, if◌then◌else◌, Option, none, some,
  List, [], ◌∷◌, ◌++◌, String, str_eq, second, minute, is_none, is_some,
}
use tidal_crypto_intelligenc.Paper.Decimal.{DecimalOps, nil, is_positive, at_most}
use tidal_crypto_intelligenc.Radar.{
  Ledger, Row, Account, Wallet, radar_time, Reading, number, money, Event, Position,
}

abbrev pub notice_ttl : ℕ
notice_ttl = 5 * minute

-- The account's answer is at most 90 seconds old.
unfoldable pub account_fresh : ℕ → Account → Bool
account_fresh now a =
    not (a.time == 0)
    && leb now (radar_time a.time + 90 * second)
    && leb (radar_time a.time) (now + 5 * second)

module _ (D : DecimalOps) where
  open D use {Decimal, of_int, require, add, mul, div, equal}

  pub record Notice : Type 0 where
    pub event_id : String
    pub kind : String
    pub at : ℕ
    pub expires : ℕ
    pub event : Event D

  pub record Trial : Type 0 where
    pub evidence : Event D
    pub at : ℕ

  -- What an evaluation of an episode reads.
  pub record Check : Type 0 where
    pub now : ℕ
    pub wallet : Wallet
    pub account : Account
    pub fx : Option Decimal
    pub position : Position D
    pub intact : Bool

  abbrev pub bind {ℓ κ} : {A : Type ℓ} {B : Type κ} → Option A → (A → Option B) → Option B
  bind none g = none
  bind (some a) g = g a

  module _ (R : Reading D) where
    -- The account's leverage and the share of this position, if its sums are good.
    abbrev pub geared : Decimal → Event D → Option Decimal → Option Decimal → Event D
    geared value v (some equity) (some total) =
        if is_positive D equity && is_positive D total && at_most D value total
        then record v {
          effective_leverage = some (div total equity);
          concentration = some (div value total);
          concentrated =
              at_most D (of_int 5) (div total equity)
              && at_most D (require "0.8") (div value total);
        }
        else record v { effective_leverage = none; concentration = none; concentrated = false }
    geared value v _ _ = record v {
      effective_leverage = none;
      concentration = none;
      concentrated = false;
    }

    -- The value in dollars; too large a sum is an error.
    abbrev pub valued : Option Decimal → Decimal → Event D → Option (Event D)
    valued none value v = some (record v { usd_cents = none })
    valued (some fx) value v =
        bind (money D R (mul value fx)) (λ c. some (record v { usd_cents = some c }))

    -- The liquidation price, if there is one, must be a positive number.
    abbrev pub good_liquidation : Option String → Bool
    good_liquidation none = true
    good_liquidation (some l) = elim (number D R l) [ none ↦ false | some n ↦ is_positive D n ]

    abbrev pub matched : Check → Row → Event D → Decimal → Option (Event D)
    matched k row v value =
        if good_liquidation row.liquidation
        then bind
            (valued k.fx value (record v {
              verified = true;
              through = radar_time k.account.time;
              native = some value;
            }))
            (λ u. some (geared value u (number D R k.account.equity) (number D R k.account.total)))
        else none

    abbrev pub compared :
        Check → Row → Event D → Option Decimal → Option Decimal → Option Decimal → Option (Event D)
    compared k row v (some size) (some value) (some entry) =
        if is_positive D value && is_positive D entry && equal size k.position.size
        then matched k row v value
        else some v
    compared k row v _ _ _ = some v

    -- One position row of the account.
    unfoldable pub check_row : Check → Event D → Row → Option (Event D)
    unfolding number money
    check_row k v row =
        if str_eq row.coin v.asset
        then compared k row v (number D R row.size) (number D R row.value) (number D R row.entry)
        else some v

    unfoldable pub check_rows : Check → Event D → List Row → Option (Event D)
    unfolding check_row
    check_rows k v [] = some v
    check_rows k v (row ∷ rows) = bind (check_row k v row) (λ u. check_rows k u rows)

    -- The episode is open, is the position's, its chain is whole and the account is fresh.
    unfoldable pub checkable : Check → Event D → Bool
    unfolding account_fresh
    checkable k v =
        is_none v.closed
        && str_eq k.position.event v.id
        && k.intact
        && account_fresh k.now k.account

    unfoldable pub verify : Check → Event D → Option (Event D)
    unfolding check_rows checkable
    verify k v =
        let reset = record v {
          updated = k.now;
          age = k.wallet.age;
          history_complete = k.wallet.history_complete;
          verified = false;
        } in
        if checkable k v then check_rows k reset k.account.positions else some reset

    abbrev pub or_zero_amount : Option Decimal → Decimal
    or_zero_amount none = nil D
    or_zero_amount (some n) = n

    -- A deposit in the half hour before the opening.
    abbrev pub counts : ℕ → Ledger → Option Decimal → Bool
    counts opened l none = false
    counts opened l (some n) =
        str_eq l.kind "deposit"
        && is_positive D n
        && leb opened (radar_time l.time + 30 * minute)
        && leb (radar_time l.time) opened

    unfoldable pub deposits : ℕ → List Ledger → Decimal → Decimal
    unfolding number
    deposits opened [] sum = sum
    deposits opened (l ∷ ls) sum = deposits opened ls (
        if counts opened l (number D R l.usdc)
        then add sum (or_zero_amount (number D R l.usdc))
        else sum)

    -- 100,000 dollars or more within the half hour.
    abbrev pub funded : Check → Event D → Option Decimal → Bool → Option (Event D)
    funded k v (some fx) true =
        bind (money D R (mul (deposits v.opened k.wallet.ledger (nil D)) fx))
          (λ c. some (record v { deposit_cents = some c; rapid = leb 10000000 c }))
    funded k v _ _ = some (record v { deposit_cents = none; rapid = false })

    abbrev pub at_least : ℕ → Option ℕ → Bool
    at_least n none = false
    at_least n (some c) = leb n c

    -- A live opening, verified and still open, over a million dollars when it crossed and now.
    unfoldable pub eligible : Event D → Bool
    eligible v =
        v.live_opening
        && v.verified
        && is_none v.closed
        && not (str_eq v.age "established")
        && is_some v.threshold
        && at_least 100000000 v.usd_cents

    -- `INSERT OR IGNORE` by the event and the kind.
    unfoldable pub queue : Notice → List Notice → List Notice
    queue n [] = n ∷ []
    queue n (m ∷ ms) =
        let rest = m ∷ queue n ms in
        if str_eq m.event_id n.event_id && str_eq m.kind n.kind then m ∷ ms else rest

    abbrev pub expiry : ℕ → String → Option ℕ → ℕ
    expiry now kind none = now + notice_ttl
    expiry now kind (some t) = if str_eq kind "opening" then t + notice_ttl else now + notice_ttl

    abbrev pub notice : ℕ → String → Event D → Notice
    notice now kind v = record {
      event_id = v.id;
      kind = kind;
      at = now;
      expires = expiry now kind v.threshold;
      event = v;
    }

    abbrev pub opening_alert : Event D → Event D
    opening_alert v = record v {
      initial_recorded = true;
      level = "opening";
      reasons = v.reasons ++ "核验新建仓达到100万美元" ∷ [];
    }

    abbrev pub priority_alert : Event D → Event D
    priority_alert v = record v {
      upgrade_recorded = true;
      level = "priority";
      reasons = v.reasons ++ "快速外部入金＋该永续账户敞口集中" ∷ [];
    }

    abbrev pub recent : ℕ → Option ℕ → Bool
    recent now none = false
    recent now (some t) = leb now (t + notice_ttl)

    -- The two alerts, each once for an episode.
    unfoldable pub alert_opening : ℕ → Event D → List Notice → Event D × List Notice
    unfolding queue eligible
    alert_opening now v ns =
        if eligible v && not v.initial_recorded
        then (opening_alert v, queue (notice now "opening" (opening_alert v)) ns)
        else (v, ns)

    unfoldable pub alert_priority : ℕ → Bool → Event D → List Notice → Event D × List Notice
    unfolding queue
    alert_priority now able v ns =
        if able && recent now v.threshold && v.rapid && v.concentrated && not v.upgrade_recorded
        then (priority_alert v, queue (notice now "priority" (priority_alert v)) ns)
        else (v, ns)

    unfoldable pub alert_both : ℕ → Event D → List Notice → Event D × List Notice
    unfolding alert_opening alert_priority eligible
    alert_both now v ns =
        let one = alert_opening now v ns in alert_priority now (eligible v) one.0 one.1

    unfoldable pub has_trial : String → List Trial → Bool
    has_trial id [] = false
    has_trial id (t ∷ ts) = str_eq t.evidence.id id || has_trial id ts

    -- `radarFreezeTrial`: the age does not matter here.
    unfoldable pub freeze : ℕ → Event D → List Trial → List Trial
    unfolding has_trial
    freeze now v ts =
        if v.live_opening
          && v.verified
          && is_none v.closed
          && is_some v.threshold
          && at_least 100000000 v.usd_cents
          && not (has_trial v.id ts)
        then ts ++ record { evidence = v; at = now } ∷ []
        else ts
