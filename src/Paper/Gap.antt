-- ===== src/Paper/Gap.antt =====
-- `discontinuity` (internal/datahub/paper_engine.go): a gap in the market data drops what is pending
-- and ends what is open.
pub mod Effects
use tidal_crypto_intelligenc.Base.{
  ℕ, Bool, true, List, [], ◌∷◌, Option, none, some, String, zero_time,
}
use tidal_crypto_intelligenc.Paper.Decimal.{DecimalOps}
use tidal_crypto_intelligenc.Paper.Types.{
  Intent, Trade, Account, State, Batch, Intake, flag, empty_batch, join, intake_record,
}
use tidal_crypto_intelligenc.Paper.Trading.{trigger}
use tidal_crypto_intelligenc.Paper.Store.{Store, commit}

module _ (D : DecimalOps) where
  unfoldable pub spoil : ℕ → Trade D → Trade D
  spoil now t = trigger D "data_gap" now (flag D "data_gap" t)

  abbrev pub dropped : State D → Account D → ℕ → String → Option (Intent D) → List Intake
  dropped s a now reason none = []
  dropped s a now reason (some i) = intake_record D s a i now "skipped" reason ∷ []

  abbrev pub spoiled : ℕ → Option (Trade D) → Option (Trade D)
  spoiled now none = none
  spoiled now (some t) = some (spoil now t)

  abbrev pub rows_of : Option (Trade D) → List (Trade D)
  rows_of none = []
  rows_of (some t) = t ∷ []

  -- One round of the loop over the accounts.
  unfoldable pub interrupt : State D → ℕ → String → Account D → Account D × Batch D
  unfolding spoil intake_record
  interrupt s now reason a = (
    record a { pending = none; position = spoiled now a.position },
    record (empty_batch D) {
      intakes = dropped s a now reason a.pending;
      trades = rows_of (spoiled now a.position);
    },
  )

  unfoldable pub interrupt_all :
      State D → ℕ → String → List (Account D) → List (Account D) × Batch D
  unfolding interrupt
  interrupt_all s now reason [] = ([], empty_batch D)
  interrupt_all s now reason (a ∷ accounts) =
      let one = interrupt s now reason a in
      let rest = interrupt_all s now reason accounts in (one.0 ∷ rest.0, join D one.1 rest.1)

  unfoldable pub gap_marked : State D → ℕ → String → State D
  gap_marked s now reason = record s {
    gap = true;
    good_since = zero_time;
    pause = reason;
    equity_gap = true;
    last_failure = reason;
    last_failure_at = some now;
  }

  unfoldable pub interrupted : State D → ℕ → String → State D × Batch D
  unfolding interrupt_all gap_marked
  interrupted s now reason =
      let marked = gap_marked s now reason in
      let all = interrupt_all marked now reason s.accounts in
      (
        record marked { accounts = all.0; at = now },
        record (all.1) { events = record { at = now; kind = "gap"; reason = reason } ∷ [] },
      )

  unfoldable pub discontinuity : Bool → ℕ → String → Store D → Store D × Bool
  unfolding interrupted
  discontinuity taken now reason p =
      let r = interrupted p.state now reason in commit D taken r.0 r.1 p
