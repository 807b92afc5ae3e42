-- ===== src/Paper/Store.antt =====
-- `paperStore` (internal/datahub/paper_store.go): the state in memory and the ledger. `commit` is one
-- SQLite transaction: whether the database takes it is an argument. The locks are left out: one
-- goroutine runs the operations (`paper_collector.go`).
use tidal_crypto_intelligenc.Base.{
  ℕ, Bool, true, false, ◌&&◌, ◌||◌, if◌then◌else◌, List, [], ◌∷◌, Option, String, str_eq,
}
use tidal_crypto_intelligenc.Paper.Decimal.{DecimalOps}
use tidal_crypto_intelligenc.Paper.Types.{Quote, Instrument, Intent, State, Batch, Intake, join}

module _ (D : DecimalOps) where
  -- The ledger holds the rows that were committed, oldest first; of a trade the last row counts, and
  -- a second equity row of a group and instant, or event of a kind and instant, does not count.
  pub record Store : Type 0 where
    pub state : State D
    pub mode : String
    pub quote : Option (Quote D)
    pub instrument : Instrument D
    pub atr : Option (Intent D)
    pub mark_at : ℕ
    pub source_at : ℕ
    pub last_quote_id : ℕ
    pub ledger : Batch D

  -- The new store, and whether the call succeeded.
  unfoldable pub commit : Bool → State D → Batch D → Store → Store × Bool
  commit taken s b p =
      if taken then (record p { state = s; ledger = join D p.ledger b }, true) else (p, false)

  -- `SELECT count(*) FROM paper_intakes WHERE id=?` for the state `seen`.
  unfoldable pub seen : List Intake → String → String → String → Bool
  seen [] generation group signal = false
  seen (i ∷ is) generation group signal =
      str_eq i.generation generation
        && str_eq i.group group
        && str_eq i.signal.id signal
        && str_eq i.state "seen"
      || seen is generation group signal
