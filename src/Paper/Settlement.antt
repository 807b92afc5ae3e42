-- ===== src/Paper/Settlement.antt =====
-- `settle` (internal/datahub/paper_funding.go): the official funding records charge the trades that
-- hold a position at their instant. `taken` says whether the database takes a transaction; the table
-- of settlements has one row for a millisecond. The fills are in the order of the query.
pub mod Again
use tidal_crypto_intelligenc.Base.{
  ℕ, ◌+◌, ◌-◌, ◌*◌, Bool, true, false, not, ◌&&◌, ◌||◌, ltb, leb, ◌==◌, if◌then◌else◌, Option, none,
  some, List, [], ◌∷◌, ◌++◌, String, str_eq, is_none, hour, unix_milli,
}
use tidal_crypto_intelligenc.Paper.Decimal.{DecimalOps, is_positive}
use tidal_crypto_intelligenc.Paper.Types.{Trade, Fill, Account, State, sign}
use tidal_crypto_intelligenc.Paper.Funding.{settlement_observed, funding_quantity}

abbrev pub same_id : String × String × String → String × String × String → Bool
same_id (a, b, c) (x, y, z) = str_eq a x && str_eq b y && str_eq c z

-- The announced times that are kept, and the settled ones.
abbrev pub kept_expected : List ℕ → List ℕ → ℕ → List ℕ
kept_expected settled [] day = []
kept_expected settled (at ∷ ats) day =
    let rest = kept_expected settled ats day in
    if ltb day at || not (settlement_observed settled at) then at ∷ rest else rest

abbrev pub kept_settled : List ℕ → ℕ → List ℕ
kept_settled [] day = []
kept_settled (at ∷ ats) day =
    let rest = kept_settled ats day in if ltb day at then at ∷ rest else rest

module _ (D : DecimalOps) where
  open D use {Decimal, add, mul, neg, equal}

  pub record Funding : Type 0 where
    pub at : ℕ
    pub acquired : ℕ
    pub rate : Decimal
    pub mark : Decimal

  pub record FundingEntry : Type 0 where
    pub trade_id : String × String × String
    pub group : String
    pub funding : Funding
    pub quantity : Decimal
    pub amount : Decimal

  -- The store's state, and the tables that a settlement reads or writes.
  pub record Books : Type 0 where
    pub state : State D
    pub settlements : List Funding
    pub charges : List FundingEntry
    pub trades : List (Trade D)
    pub fills : List (Fill D)
    pub conflicts : List ℕ  -- the events `funding_conflict`, by time

  -- The state and the batch while a call runs.
  pub record Draft : Type 0 where
    pub state : State D
    pub trades : List (Trade D)
    pub charges : List FundingEntry
    pub settlements : List Funding

  unfoldable pub find_settlement : ℕ → List Funding → Option Funding
  find_settlement at [] = none
  find_settlement at (f ∷ fs) =
      let rest = find_settlement at fs in if unix_milli f.at == at then some f else rest

  -- The query of trades open at the millisecond.
  abbrev pub exits_by : Option ℕ → ℕ → Bool
  exits_by none at = true
  exits_by (some e) at = leb at (unix_milli e)

  abbrev pub may_hold : ℕ → Trade D → Bool
  may_hold at t = leb (unix_milli t.entered) at && exits_by t.exited at

  -- The trade as the batch has it already, or as the table has it.
  abbrev pub latest : List (Trade D) → Trade D → Trade D
  latest [] t = t
  latest (u ∷ us) t = latest us (if same_id u.id t.id then u else t)

  abbrev pub fills_of : String × String × String → List (Fill D) → List (Fill D)
  fills_of id [] = []
  fills_of id (f ∷ fs) =
      let rest = fills_of id fs in if same_id f.trade_id id then f ∷ rest else rest

  -- One account: its funding, and its position's, which is written too.
  abbrev pub with_position : Trade D → Account D → Option (Trade D) → Account D × List (Trade D)
  with_position t a none = (a, [])
  with_position t a (some p) =
      let q = record p { funding = t.funding } in
      if same_id p.id t.id then (record a { position = some q }, q ∷ []) else (a, [])

  abbrev pub charge_account : Trade D → Decimal → Account D → Account D × List (Trade D)
  charge_account t amount a =
      if str_eq a.group t.group
      then with_position t (record a { funding = add a.funding amount }) a.position
      else (a, [])

  abbrev pub charge_accounts :
      Trade D → Decimal → List (Account D) → List (Account D) × List (Trade D)
  charge_accounts t amount [] = ([], [])
  charge_accounts t amount (a ∷ accounts) =
      let r = charge_account t amount a in
      let rest = charge_accounts t amount accounts in (r.0 ∷ rest.0, r.1 ++ rest.1)

  -- What a settlement charges a trade: `paperFundingEntry`.
  unfoldable pub entry_of : List (Fill D) → Funding → Trade D → FundingEntry
  unfolding funding_quantity sign
  entry_of fills f t =
      let qty = funding_quantity D (fills_of t.id fills) f.at in
      record {
        trade_id = t.id;
        group = t.group;
        funding = f;
        quantity = qty;
        amount = neg (mul (mul (mul qty f.mark) f.rate) (sign D t));
      }

  -- One trade of the query.
  unfoldable pub charge : List (Fill D) → Funding → Trade D → Draft → Draft
  unfolding entry_of
  charge fills f row d =
      let t = latest d.trades row in
      let entry = entry_of fills f t in
      let paid = record t { funding = add t.funding entry.amount } in
      let accounts = charge_accounts paid entry.amount d.state.accounts in
      if is_positive D entry.quantity
      then record d {
        state = record (d.state) { accounts = accounts.0 };
        trades = d.trades ++ (paid ∷ accounts.1);
        charges = d.charges ++ entry ∷ [];
      }
      else d

  unfoldable pub charge_all : List (Fill D) → Funding → List (Trade D) → Draft → Draft
  unfolding charge
  charge_all fills f [] d = d
  charge_all fills f (t ∷ ts) d =
      charge_all fills f ts (if may_hold (unix_milli f.at) t then charge fills f t d else d)

  pub data Outcome : Type 0 where
    drafted : Draft → Outcome
    invalid : Outcome
    conflicting : Funding → Outcome

  abbrev pub recorded : Books → Funding → Draft → Draft
  recorded b f d =
      let c = charge_all b.fills f b.trades d in
      record c {
        settlements = c.settlements ++ f ∷ [];
        state = record (c.state) {
          settled_funding = c.state.settled_funding ++ unix_milli f.at ∷ [];
        };
      }

  abbrev pub compared : Books → Funding → Draft → Option Funding → Outcome
  compared b f d none = drafted (recorded b f d)
  compared b f d (some x) =
      if equal x.rate f.rate && equal x.mark f.mark then drafted d else conflicting f

  -- One record.
  unfoldable pub settle_one : Books → ℕ → Funding → Draft → Outcome
  unfolding find_settlement charge_all
  settle_one b through f d =
      if not (is_positive D f.mark) || ltb through f.at
      then invalid
      else compared b f d (find_settlement (unix_milli f.at) b.settlements)

  abbrev pub then_settle : Outcome → (Draft → Outcome) → Outcome
  then_settle (drafted d) k = k d
  then_settle invalid k = invalid
  then_settle (conflicting f) k = conflicting f

  unfoldable pub settle_all : Books → ℕ → List Funding → Draft → Outcome
  unfolding settle_one
  settle_all b through [] d = drafted d
  settle_all b through (f ∷ fs) d =
      then_settle (settle_one b through f d) (λ e. settle_all b through fs e)

  -- What the state knows of the times after a call.
  abbrev pub settled_state : ℕ → State D → State D
  settled_state through s =
      let day = unix_milli (through - 24 * hour) in
      record s {
        funding_through = if ltb s.funding_through through then through else s.funding_through;
        expected_funding = kept_expected s.settled_funding s.expected_funding day;
        settled_funding = kept_settled s.settled_funding day;
      }

  -- `PRIMARY KEY` on the millisecond.
  unfoldable pub distinct_times : List Funding → Bool
  distinct_times [] = true
  distinct_times (f ∷ fs) = is_none (find_settlement (unix_milli f.at) fs) && distinct_times fs

  -- The row of a trade is replaced, or a new one is added.
  abbrev pub put_trade : Trade D → List (Trade D) → List (Trade D)
  put_trade t [] = t ∷ []
  put_trade t (u ∷ us) = let rest = u ∷ put_trade t us in if same_id u.id t.id then t ∷ us else rest

  abbrev pub put_trades : List (Trade D) → List (Trade D) → List (Trade D)
  put_trades [] rows = rows
  put_trades (t ∷ ts) rows = put_trades ts (put_trade t rows)

  abbrev pub committed : Bool → State D → Draft → Books → Books × Bool
  committed taken s d b =
      let rows = b.settlements ++ d.settlements in
      if taken && distinct_times rows
      then (
        record b {
          state = s;
          settlements = rows;
          charges = b.charges ++ d.charges;
          trades = put_trades d.trades b.trades;
        },
        true,
      )
      else (b, false)

  abbrev pub conflict_at : Option ℕ → ℕ → Option ℕ
  conflict_at none at = some at
  conflict_at (some c) at = if ltb at c then some at else some c

  abbrev pub in_conflict : Bool → Funding → Books → Books
  in_conflict taken f b =
      if taken
      then record b {
        state = record (b.state) { funding_conflict = conflict_at b.state.funding_conflict f.at };
        conflicts = b.conflicts ++ f.acquired ∷ [];
      }
      else b

  abbrev pub closed : Bool → ℕ → Books → Outcome → Books × Bool
  closed taken through b (drafted d) = committed taken (settled_state through d.state) d b
  closed taken through b invalid = (b, false)
  closed taken through b (conflicting f) = (in_conflict taken f b, false)

  abbrev pub start : Books → Draft
  start b = record { state = b.state; trades = []; charges = []; settlements = [] }

  -- `settle`, and whether it succeeded.
  unfoldable pub settle : Bool → List Funding → ℕ → Books → Books × Bool
  unfolding settle_all distinct_times
  settle taken records through b = closed taken through b (settle_all b through records (start b))
