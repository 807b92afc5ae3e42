-- ===== src/Radar.antt =====
-- The radar of large positions on a public exchange (internal/datahub/radar_types.go,
-- radar_engine.go, radar_store.go): fills of a wallet become episodes of a position, and an episode
-- that is verified and large gives an alert. Texts that are kept as evidence only (the context, the
-- exchange rate's text, the configured leverage) are left out.
pub mod Transition
pub mod Fills
pub mod Replay
pub mod Evidence
pub mod Apply
pub mod Alerts
mod Scenarios
use tidal_crypto_intelligenc.Base.{
  ℕ, ◌+◌, ◌*◌, Bool, true, false, not, ◌&&◌, ◌||◌, leb, ◌==◌, if◌then◌else◌, Option, none, some,
  List, String, str_eq, unix_epoch, millisecond,
}
use Prim.Native.String.{len}
use tidal_crypto_intelligenc.Paper.Decimal.{DecimalOps, nil, is_nil, at_most}

-- A trade id may be negative in the answer, which is an error. A time that is not positive is given
-- as 0: it is too old whatever it is.
pub record Fill : Type 0 where
  pub coin : String
  pub px : String
  pub sz : String
  pub side : String
  pub start : String
  pub time : ℕ
  pub negative_id : Bool
  pub tid : ℕ
  pub hash : String

-- An entry of the wallet's ledger of deposits and withdrawals.
pub record Ledger : Type 0 where
  pub time : ℕ
  pub kind : String
  pub usdc : String

-- A position row of the account, its numbers as texts.
pub record Row : Type 0 where
  pub coin : String
  pub size : String
  pub value : String
  pub entry : String
  pub liquidation : Option String

pub record Account : Type 0 where
  pub time : ℕ
  pub equity : String
  pub total : String
  pub positions : List Row

pub record Wallet : Type 0 where
  pub ledger_complete : Bool
  pub address : String
  pub first_seen : ℕ
  pub earliest : Option ℕ
  pub history_complete : Bool
  pub age : String
  pub updated : ℕ
  pub ledger : List Ledger

abbrev pub valid_asset : String → Bool
valid_asset a = str_eq a "BTC" || str_eq a "ETH"

-- `radarTime`.
abbrev pub radar_time : ℕ → ℕ
radar_time t = unix_epoch + t * millisecond

module _ (D : DecimalOps) where
  open D use {Decimal, of_int, neg, less}

  -- What the decimal library reads and rounds: `NewFromString`, with whether the exponent lies
  -- within 18 of 0, and `Mul(100).Round(0).IntPart()` of a number that is not negative.
  pub record Reading : Type 0 where
    pub read : String → Option (Decimal × Bool)
    pub cents : Decimal → ℕ

  abbrev pub abs : Decimal → Decimal
  abs a = if less a (nil D) then neg a else a

  abbrev pub trillion : Decimal
  trillion = of_int 1000000000000

  -- `Sign`: 0 for a negative number, 1 for zero, 2 for a positive one.
  abbrev pub sign_of : Decimal → ℕ
  sign_of a = if less a (nil D) then 0 else if is_nil D a then 1 else 2

  pub record Event : Type 0 where
    pub id : String
    pub address : String
    pub asset : String
    pub side : String
    pub opened : ℕ
    pub detected : ℕ
    pub updated : ℕ
    pub through : ℕ
    pub threshold : Option ℕ
    pub closed : Option ℕ
    pub size : Decimal
    pub opened_quantity : Decimal
    pub opened_native : Decimal
    pub native : Option Decimal
    pub usd_cents : Option ℕ
    pub effective_leverage : Option Decimal
    pub concentration : Option Decimal
    pub deposit_cents : Option ℕ
    pub rapid : Bool
    pub concentrated : Bool
    pub age : String
    pub history_complete : Bool
    pub live_opening : Bool
    pub verified : Bool
    pub level : String
    pub reasons : List String
    pub initial_recorded : Bool
    pub upgrade_recorded : Bool

  pub record Position : Type 0 where
    pub size : Decimal
    pub event : String
    pub last : ℕ

  module _ (R : Reading) where
    abbrev pub bounded : Option (Decimal × Bool) → Option Decimal
    bounded none = none
    bounded (some (n, fits)) = if fits && at_most D (abs n) trillion then some n else none

    -- `radarNumber`.
    unfoldable pub number : String → Option Decimal
    number s = if len s == 0 || not (leb (len s) 64) then none else bounded (R.read s)

    -- `radarMoney`.
    unfoldable pub money : Decimal → Option ℕ
    money n = if less n (nil D) || less trillion n then none else some (R.cents n)
