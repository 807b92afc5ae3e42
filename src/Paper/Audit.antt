-- ===== src/Paper/Audit.antt =====
-- `reconcile` (internal/datahub/paper_recovery.go), the part on one trade: what its fills and
-- charges add up to, and the comparison of the stored trade with that.
use tidal_crypto_intelligenc.Base.{
  ℕ, ◌+◌, Bool, true, ◌&&◌, ◌||◌, ltb, leb, ◌==◌, if◌then◌else◌, List, [], ◌∷◌, Option, none, some,
  str_eq,
}
use tidal_crypto_intelligenc.Paper.Decimal.{DecimalOps, nil}
use tidal_crypto_intelligenc.Paper.Types.{Fill, Trade, sign}
use tidal_crypto_intelligenc.Paper.Settlement.{FundingEntry}
pub mod Books
pub mod Steps
pub mod Life

module _ (D : DecimalOps) where
  open D use {Decimal, add, sub, mul, less, equal}

  -- The sums of `paperAuditTrade`.
  pub record Sums : Type 0 where
    pub quantity : Decimal
    pub gross : Decimal
    pub fees : Decimal
    pub slippage : Decimal
    pub funding : Decimal
    pub fills : ℕ

  abbrev pub no_sums : Sums
  no_sums = record {
    quantity = nil D;
    gross = nil D;
    fees = nil D;
    slippage = nil D;
    funding = nil D;
    fills = 0;
  }

  -- One fill of a trade, where `cursor` is the state's `LastQuoteID`. `none` is the error of a quote
  -- that the cursor does not cover, of an unknown kind, or of a negative position.
  unfoldable pub audit_fill : ℕ → Trade D → Fill D → Sums → Option Sums
  audit_fill cursor t f v =
      let paid = record v {
        fills = v.fills + 1;
        fees = add v.fees f.fee;
        slippage = add v.slippage f.slippage;
      } in
      let bought = record paid { quantity = add v.quantity f.quantity } in
      let sold = record paid {
        quantity = sub v.quantity f.quantity;
        gross = add v.gross (mul (mul (sub f.price t.entry) f.quantity) (sign D t));
      } in
      if leb f.quote.id 0 || ltb cursor f.quote.id
      then none
      else if str_eq f.kind "open"
      then if less bought.quantity (nil D) then none else some bought
      else if str_eq f.kind "close"
      then if less sold.quantity (nil D) then none else some sold
      else none

  -- An error ends the reading.
  abbrev pub and_then : Option Sums → (Sums → Option Sums) → Option Sums
  and_then none k = none
  and_then (some v) k = k v

  -- The fills in the order of the ledger.
  unfoldable pub audit_from : ℕ → Trade D → List (Fill D) → Sums → Option Sums
  audit_from cursor t [] v = some v
  audit_from cursor t (f ∷ fs) v =
      and_then (audit_fill cursor t f v) (λ v'. audit_from cursor t fs v')

  -- The rows of the table of charges.
  unfoldable pub audit_funding : List (FundingEntry D) → Sums → Sums
  audit_funding [] v = v
  audit_funding (e ∷ es) v = audit_funding es (record v { funding = add v.funding e.amount })

  -- The fills, then the charges.
  unfoldable pub audit_trade : ℕ → Trade D → List (Fill D) → List (FundingEntry D) → Option Sums
  unfolding audit_from audit_funding
  audit_trade cursor t fs es =
      and_then (audit_from cursor t fs no_sums) (λ v. some (audit_funding es v))

  -- The stored trade agrees with its fills.
  unfoldable pub agrees : Trade D → Sums → Bool
  agrees t v =
      equal t.remaining v.quantity
      && equal t.gross v.gross
      && equal t.fees v.fees
      && equal t.slippage v.slippage
      && equal t.funding v.funding
      && (t.fill_count == v.fills)
