-- ===== src/Paper/Admission.antt =====
-- `admission` (internal/datahub/paper_engine.go): why an intent may not be traded now, or "".
pub mod Gate
use tidal_crypto_intelligenc.Base.{
  ℕ, ◌+◌, ◌*◌, Bool, true, false, not, ◌&&◌, ◌||◌, ltb, leb, ◌==◌, if◌then◌else◌, List, [], ◌∷◌,
  Option, none, some, String, str_eq, second, hour, truncate, is_zero, is_none,
}
use tidal_crypto_intelligenc.Paper.Decimal.{DecimalOps, is_positive}
use tidal_crypto_intelligenc.Paper.Types.{
  Signal, Quote, Intent, State, quote_valid, instrument_valid,
}
use tidal_crypto_intelligenc.Paper.Funding.{funding_known}
use tidal_crypto_intelligenc.Paper.Store.{Store}

abbrev pub multifactor_rules : String
multifactor_rules = "flow-multifactor-v1"

-- A signal that the experiment trades at all.
unfoldable pub eligible : Signal → Bool
eligible g =
    str_eq g.asset "BTC"
    && str_eq g.rules multifactor_rules
    && (str_eq g.direction "buy" || str_eq g.direction "sell")

-- The market has been good for 30 seconds on end.
unfoldable pub recovering : Option ℕ → Bool → ℕ → ℕ → Bool
recovering origin gap good_since now =
    is_none origin || gap || is_zero good_since || ltb now (good_since + 30 * second)

-- A signal of the future, or older than 30 seconds.
unfoldable pub expired : Signal → ℕ → Bool
expired g now = ltb now g.at || ltb (g.at + 30 * second) now

-- A row of early returns.
abbrev pub first_reason : List (Bool × String) → String
first_reason [] = ""
first_reason ((b, reason) ∷ rest) = if b then reason else first_reason rest

module _ (D : DecimalOps) where
  abbrev pub quote_fresh : Option (Quote D) → ℕ → Bool
  quote_fresh none now = false
  quote_fresh (some q) now = quote_valid D q now

  -- The tests in the order of the source, each with the reason that it returns.
  unfoldable pub checks : Store D → State D → Intent D → ℕ → Bool → List (Bool × String)
  unfolding eligible recovering expired
  checks p s i now protected =
      (not (str_eq p.mode "run"), "disabled")
      ∷ (recovering s.origin s.gap s.good_since now, "recovering")
      ∷ (protected, "storage_reserve")
      ∷ (expired i.signal now, "signal_expired")
      ∷ (not (eligible i.signal), "ineligible_signal")
      ∷ (not (instrument_valid D p.instrument now), "contract_unavailable")
      ∷ (not (is_positive D i.atr) || not (i.atr_through == truncate now hour), "atr_missing")
      ∷ (not (quote_fresh p.quote now), "quote_stale")
      ∷ (is_zero p.mark_at || ltb (p.mark_at + 5 * second) now, "mark_stale")
      ∷ (not (funding_known D s now true), "funding_unsettled")
      ∷ []

  unfoldable pub admission : Store D → State D → Intent D → ℕ → Bool → String
  unfolding checks
  admission p s i now protected = first_reason (checks p s i now protected)
