-- ===== src/Cost.antt =====
-- The watch on the cost of coins on chain (internal/datahub/onchain.go, onchain_engine.go and
-- onchain_events.go): cases with a frozen boundary, which the closing prices of days confirm. A date
-- is the number of days since Go's zero time, whose text order is the order of the numbers within
-- the years 2009 to 2200 that `costDay` takes, and the empty text is 0. What only explains an event
-- (metrics, evidence, notes) is left out.
pub mod Advance
pub mod Cases
pub mod Structure
pub mod Boundary
pub mod Distinct
pub mod Confirmation
mod Scenarios
use tidal_crypto_intelligenc.Base.{ℕ, ◌+◌, ◌*◌, ◌/◌, Bool, true, false, Option, List, String, hour}
use tidal_crypto_intelligenc.Paper.Decimal.{DecimalOps}

pub record Zone : Type 0 where
  pub side : String
  pub low : String
  pub high : String

pub record Price : Type 0 where
  pub date : ℕ
  pub value : String
  pub revision : String

-- The states of a case, as texts in the source.
pub data Phase : Type 0 where
  watching pending confirmed invalidated discovery_expired pending_expired tracking_expired : Phase

abbrev pub phase_name : Phase → String
phase_name watching = "watching"
phase_name pending = "pending"
phase_name confirmed = "confirmed"
phase_name invalidated = "invalidated"
phase_name discovery_expired = "discovery_expired"
phase_name pending_expired = "pending_expired"
phase_name tracking_expired = "tracking_expired"

pub data Quality : Type 0 where
  waiting unknown available : Quality

pub record Event : Type 0 where
  pub id : String
  pub kind : String
  pub date : ℕ
  pub detected : ℕ
  pub price : String
  pub case_id : String
  pub group : String
  pub shadow : Bool

-- The digests by SHA-256 that name cycles, cases and events, by what is digested.
pub record Digests : Type 0 where
  pub of_cycle : String → ℕ → String → String
  pub of_case : String → String → String → String → String → String
  pub of_event : String → String → ℕ → String
  pub of_initial : String → String
  pub of_structure : Option ℕ → ℕ → String  -- without a day for the initial structure

abbrev pub day_length : ℕ
day_length = 24 * hour

-- `costDate` and `costClose`.
abbrev pub date_of : ℕ → ℕ
date_of t = t / day_length

abbrev pub close_of : ℕ → ℕ
close_of date = (date + 1) * day_length

-- What is known of the month's concentration and of the volatility: their ranks. A rank of the
-- volatility is a float in the source, which is only compared with 20.
module _ (D : DecimalOps) where
  pub record Bounds : Type 0 where
    pub lower : D.Decimal
    pub upper : D.Decimal

  pub record Metrics : Type 0 where
    pub concentration_rank : Option Bounds
    pub volatility_rank : Option D.Decimal
    pub zones : List Zone

  pub record Case : Type 0 where
    pub id : String
    pub group : String
    pub cycle : String
    pub zone : Zone
    pub direction : String
    pub buffer : String
    pub boundary : D.Decimal
    pub frozen_at : ℕ
    pub from : ℕ
    pub through : ℕ
    pub last_date : ℕ
    pub confirmed_date : ℕ
    pub track_through : ℕ
    pub phase : Phase
    pub quality : Quality
    pub count : ℕ
    pub method : String
    pub first_price : String
    pub first_detected_at : Option ℕ
    pub last_price : String
    pub first_tracking_gap : ℕ
    pub invalidated_date : ℕ
    pub invalidated_at : Option ℕ
    pub shadow : Bool
    pub legacy : Bool
