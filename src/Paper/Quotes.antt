-- ===== src/Paper/Quotes.antt =====
-- `onQuote` (internal/datahub/paper_engine.go): marks, exits and fills on a quote of the book.
pub mod Exits
pub mod Delay
pub mod Entries
pub mod Ledger
use tidal_crypto_intelligenc.Base.{
  ℕ, ◌+◌, ◌*◌, Bool, true, false, not, ◌&&◌, ◌||◌, ltb, leb, if◌then◌else◌, List, [], ◌∷◌, Option,
  none, some, String, str_eq, second, hour, zero_time,
}
use tidal_crypto_intelligenc.Paper.Decimal.{DecimalOps, nil, is_positive, is_nil, at_most}
use tidal_crypto_intelligenc.Paper.Types.{
  Quote, Intent, Trade, Account, State, Batch, empty_batch, join, intake_record, flag, sign, cash,
  paper_fee, paper_notional, quote_valid, instrument_valid,
}
use tidal_crypto_intelligenc.Paper.Trading.{
  execution, exit_side, trigger, unit_gain, mark, fill_trade,
}
use tidal_crypto_intelligenc.Paper.Admission.{first_reason, admission}
use tidal_crypto_intelligenc.Paper.Store.{Store, commit}
use tidal_crypto_intelligenc.Paper.Gap.{discontinuity, spoil}

module _ (D : DecimalOps) where
  open D use {Decimal, of_int, add, sub, mul, div, neg, floor, least, less}

  -- The `switch` of the group `risk`: stop, target, time.
  unfoldable pub risk_exit : Trade D → Quote D → Trade D
  risk_exit t q =
      let delta = unit_gain D t q in
      if at_most D delta (neg t.atr)
      then trigger D "stop_loss" q.at t
      else if at_most D (mul t.atr (of_int 2)) delta
      then trigger D "take_profit" q.at t
      else if leb (t.entered + 4 * hour) q.at
      then trigger D "time_limit" q.at t
      else t

  -- The mark and the triggers, before any fill.
  unfoldable pub watch : Bool → String → Quote D → Trade D → Trade D
  unfolding risk_exit
  watch gap group q t =
      let marked = mark D t q in
      let checked = if gap then spoil D q.at marked else marked in
      if str_eq group "risk" && str_eq checked.exit_reason "" then risk_exit checked q else checked

  -- The trade after a fill of `qty` at `price` that closes it in whole or in part, and the profit.
  unfoldable pub close_part : Trade D → Decimal → Decimal → Quote D → Trade D × Batch D × Decimal
  close_part t qty price q =
      let filled = fill_trade D t "close" (exit_side D t) qty price q in
      let gross = mul (mul (sub price t.entry) qty) (sign D t) in
      let left = sub t.remaining qty in
      let closed = record (filled.0) {
        gross = add t.gross gross;
        fees = add t.fees filled.1.fee;
        slippage = add t.slippage filled.1.slippage;
        remaining = left;
        exited = if is_nil D left then some q.at else t.exited;
      } in
      (closed, record (empty_batch D) { trades = closed ∷ []; fills = filled.1 ∷ [] }, gross)

  abbrev pub delayed : ℕ → Option (Intent D) → Option (Intent D)
  delayed at none = none
  delayed at (some i) = some (record i { after = at + second })

  -- The account after a closing fill.
  unfoldable pub booked : Account D → Trade D → Decimal → Decimal → ℕ → Account D
  booked a closed gross fee at =
      let paid = record a { gross = add a.gross gross; fees = add a.fees fee } in
      if is_nil D closed.remaining
      then record paid { position = none; pending = delayed at a.pending }
      else record paid { position = some closed }

  abbrev pub fee_of : Trade D → Decimal → Decimal → Decimal
  fee_of t qty price = mul (mul qty price) (paper_fee D)

  -- A close is due: triggered, a second back at least, on a tradable contract, with size.
  unfoldable pub due : Store D → Quote D → Trade D → Decimal → Bool
  due p q t qty =
      not (str_eq t.exit_reason "")
      && leb t.exit_after q.at
      && instrument_valid D p.instrument q.at
      && is_positive D qty

  -- What is closed on the quote: what the top of the book takes, and no more than remains.
  unfoldable pub close_size : Quote D → Trade D → Decimal
  close_size q t = least (execution D q (exit_side D t)).1 t.remaining

  -- An account with a position: the account, its rows, and whether anything must be saved.
  unfoldable pub hold : Store D → Bool → Quote D → Account D → Trade D → Account D × Batch D × Bool
  unfolding watch close_part booked due close_size
  hold p gap q a t =
      let w = watch gap a.group q t in
      let price = (execution D q (exit_side D w)).0 in
      let qty = close_size q w in
      let part = close_part w qty price q in
      if due p q w qty then (booked a part.0 part.2 (fee_of w qty price) q.at, part.1, true) else (
        record a { position = some w },
        record (empty_batch D) { trades = w ∷ [] },
        not (str_eq w.exit_reason t.exit_reason),
      )

  -- What the notional buys, in whole steps of the contract.
  unfoldable pub order_quantity : Store D → Decimal → Decimal
  order_quantity p price =
      mul (floor (div (div (paper_notional D) price) p.instrument.step)) p.instrument.step

  -- Outside what the contract allows.
  unfoldable pub filtered : Store D → Decimal → Decimal → Bool
  filtered p qty price =
      not (is_positive D qty)
      || less qty p.instrument.minimum
      || less p.instrument.maximum qty
      || less (mul qty price) p.instrument.min_notional

  -- What the fill takes out of the account.
  unfoldable pub cost : Decimal → Decimal → Decimal
  cost qty price = mul (mul qty price) (add (of_int 1) (paper_fee D))

  -- Why the order cannot be filled, or "".
  unfoldable pub refusal : Store D → Account D → Decimal → Decimal → Decimal → String
  refusal p a qty price size = first_reason (
      (filtered p qty price, "quantity_filter")
      ∷ (less size qty, "top_size_insufficient")
      ∷ (less (cash D a) (cost qty price), "cash_insufficient")
      ∷ [])

  -- The trade of an intent, filled at `price`.
  unfoldable pub open_trade : State D → Account D → Intent D → Decimal → Decimal → Quote D → Trade D
  open_trade s a i qty price q =
      let bare : Trade D = record {
        id = (s.generation, a.group, i.signal.id);
        group = a.group;
        signal = i.signal;
        seen = i.seen;
        entered = q.at;
        exited = none;
        entry = price;
        quantity = qty;
        remaining = qty;
        atr = i.atr;
        atr_through = i.atr_through;
        stop = none;
        target = none;
        gross = nil D;
        fees = nil D;
        slippage = nil D;
        funding = nil D;
        mfe = nil D;
        mae = nil D;
        mfe_at = q.at;
        mae_at = q.at;
        quality = [];
        exit_reason = "";
        exit_after = zero_time;
        fill_count = 0;
      } in
      if str_eq a.group "risk"
      then record bare {
        stop = some (sub price (mul (sign D bare) i.atr));
        target = some (add price (mul (mul (sign D bare) i.atr) (of_int 2)));
      }
      else bare

  unfoldable pub opened :
      State D → Account D → Intent D → Decimal → Decimal → Quote D → Account D × Batch D × Bool
  unfolding open_trade
  opened s a i qty price q =
      let t = open_trade s a i qty price q in
      let filled = fill_trade D t "open" i.signal.direction qty price q in
      let paid = record (filled.0) { fees = filled.1.fee; slippage = filled.1.slippage } in
      let marked = mark D paid q in
      (
        record a { fees = add a.fees filled.1.fee; position = some marked; pending = none },
        record (empty_batch D) {
          trades = marked ∷ [];
          fills = filled.1 ∷ [];
          intakes = intake_record D s a i q.at "opened" "" ∷ [];
        },
        true,
      )

  -- An account with a pending intent and no position.
  unfoldable pub enter :
      Store D → State D → Bool → Quote D → Account D → Intent D → Account D × Batch D × Bool
  unfolding order_quantity refusal opened
  enter p s protected q a i =
      let deal = execution D q i.signal.direction in
      let qty = order_quantity p deal.0 in
      let admitted = admission D p s i q.at protected in
      let reason = if str_eq admitted "" then refusal p a qty deal.0 deal.1 else admitted in
      if ltb q.at i.after
      then (a, empty_batch D, false)
      else if str_eq reason ""
      then opened s a i qty deal.0 q
      else (
        record a { pending = none },
        record (empty_batch D) { intakes = intake_record D s a i q.at "skipped" reason ∷ [] },
        true,
      )

  -- One round of the loop over the accounts.
  unfoldable pub visit :
      Store D
      → State D
      → Bool
      → Quote D
      → Account D
      → Option (Trade D)
      → Option (Intent D)
      → Account D × Batch D × Bool
  unfolding hold enter
  visit p s protected q a (some t) i = hold p s.gap q a t
  visit p s protected q a none (some i) = enter p s protected q a i
  visit p s protected q a none none = (a, empty_batch D, false)

  unfoldable pub visit_all :
      Store D → State D → Bool → Quote D → List (Account D) → List (Account D) × Batch D × Bool
  unfolding visit
  visit_all p s protected q [] = ([], empty_batch D, false)
  visit_all p s protected q (a ∷ accounts) =
      let one = visit p s protected q a a.position a.pending in
      let rest = visit_all p s protected q accounts in
      (one.0 ∷ rest.0, join D one.1 rest.1, one.2 || rest.2)

  -- After the quote is taken: the accounts, and the commit if anything changed.
  unfoldable pub apply_quote : Bool → Quote D → Bool → Store D → Store D × Bool
  unfolding visit_all
  apply_quote taken q protected p =
      let s = record p.state { last_quote_id = q.id } in
      let r = visit_all p s protected q s.accounts in
      let s' = record s { accounts = r.0 } in
      if r.2
      then commit D taken (record s' { at = q.at }) r.1 p
      else (record p { state = s' }, true)

  abbrev pub stale : Option (Quote D) → ℕ → Bool
  stale none at = false
  stale (some old) at = ltb (old.at + 5 * second) at

  -- `gap_taken` and `taken` are the database's answers to the two commits.
  unfoldable pub on_quote : Bool → Bool → Quote D → Bool → Store D → Store D × Bool
  unfolding apply_quote
  on_quote gap_taken taken q protected p =
      let cut =
        if stale p.quote q.at then discontinuity D gap_taken q.at "quote_gap" p else (p, true) in
      let ready = record (cut.0) { last_quote_id = q.id; quote = some q } in
      if not (quote_valid D q q.at)
      then (p, false)
      else if leb q.id p.last_quote_id
      then (p, true)
      else if cut.1
      then apply_quote taken q protected ready
      else cut

  -- What one round of `onQuote` sees beside the account.
  pub record Round : Type 0 where
    pub store : Store D
    pub state : State D
    pub protected : Bool
    pub quote : Quote D
