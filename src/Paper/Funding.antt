-- ===== src/Paper/Funding.antt =====
-- Funding settlements (internal/datahub/paper_funding.go): which quantity a settlement charges, and
-- whether the settlements up to an instant are known.
use tidal_crypto_intelligenc.Base.{
  ℕ, ◌+◌, ◌*◌, Bool, true, false, not, ◌&&◌, ◌||◌, ltb, leb, if◌then◌else◌, List, [], ◌∷◌, Option,
  none, some, str_eq, minute, unix_milli,
}
use tidal_crypto_intelligenc.Paper.Decimal.{DecimalOps, nil}
use tidal_crypto_intelligenc.Paper.Types.{Fill, State}

-- An announced time is matched by a settlement within a second.
unfoldable pub settlement_observed : List ℕ → ℕ → Bool
settlement_observed [] due = false
settlement_observed (at ∷ ats) due =
    leb due (at + 1000) && leb at (due + 1000) || settlement_observed ats due

-- Every announced time up to `at` (in milliseconds) is settled.
unfoldable pub all_observed : List ℕ → List ℕ → ℕ → Bool
unfolding settlement_observed
all_observed settled [] at = true
all_observed settled (due ∷ dues) at =
    not (leb due at && not (settlement_observed settled due)) && all_observed settled dues at

abbrev pub in_conflict : Option ℕ → ℕ → Bool
in_conflict none at = false
in_conflict (some c) at = leb c at

module _ (D : DecimalOps) where
  open D use {Decimal, add, sub}

  -- `paperFundingKnown`. An open position may be two minutes of history and one of polling behind.
  unfoldable pub funding_known : State D → ℕ → Bool → Bool
  unfolding all_observed
  funding_known s at open_position =
      let behind =
        if open_position
        then ltb (s.funding_through + 3 * minute) at
        else ltb s.funding_through at in
      not (in_conflict s.funding_conflict at)
      && not behind
      && all_observed s.settled_funding s.expected_funding (unix_milli at)

  unfoldable funding_from : List (Fill D) → ℕ → Decimal → Decimal
  funding_from [] at qty = qty
  funding_from (f ∷ fs) at qty =
      let moved = if str_eq f.kind "open" then add qty f.quantity else sub qty f.quantity in
      funding_from fs at (if ltb at f.at then qty else moved)

  -- `paperFundingQuantity`: what is held at the settlement's instant.
  unfoldable pub funding_quantity : List (Fill D) → ℕ → Decimal
  unfolding funding_from
  funding_quantity fs at = funding_from fs at (nil D)
