-- ===== src/Orders.antt =====
-- `ingestOrders` (internal/datahub/orders.go): large orders are tracked by their identity. Statements
-- of the database that fail roll everything back, and are not modelled; the trimming of samples
-- that other parts keep only enters by the size of the store.
pub mod Forward
mod Scenarios
use tidal_crypto_intelligenc.Base.{
  ℕ, ◌+◌, ◌*◌, ◌^◌, Bool, true, false, not, ◌&&◌, ◌||◌, leb, ltb, ◌==◌, if◌then◌else◌, Option, none,
  some, List, [], ◌∷◌, ◌++◌, String, str_eq, is_zero, glue,
}
use tidal_crypto_intelligenc.Paper.Decimal.{DecimalOps, nil, is_positive}

pub record LargeOrder : Type 0 where
  pub id : String
  pub side : String
  pub price : String
  pub quantity : String
  pub executed_quantity : Option String
  pub executed_usd : String
  pub raw_state : ℕ
  pub changed : Option ℕ
  pub ended : Option ℕ

pub record Tracked : Type 0 where
  pub first_seen : ℕ
  pub key : String
  pub order : LargeOrder
  pub seen : ℕ
  pub fact_at : ℕ
  pub revision : String

-- The fields of a `Dataset` that name an order.
pub record Source : Type 0 where
  pub source : String
  pub market : String
  pub venue : String
  pub symbol : String

-- `orderKey`.
abbrev pub order_key : Source → LargeOrder → String
order_key d r = glue d.source (glue d.market (glue d.venue (glue d.symbol r.id)))

abbrev pub limit : ℕ
limit = 512 * 2 ^ 20

-- `orderFactTime`.
abbrev pub later : Option ℕ → ℕ → ℕ
later none at = at
later (some t) at = if ltb at t then t else at

abbrev pub or_fetched : Option ℕ → ℕ → ℕ
or_fetched none at = at
or_fetched (some t) at = t

abbrev pub fact_time : LargeOrder → ℕ → ℕ
fact_time r fetched = later r.ended (or_fetched r.changed fetched)

-- The row of `tracked_orders` with a key.
unfoldable pub find_order : String → List Tracked → Option Tracked
find_order k [] = none
find_order k (t ∷ ts) = let rest = find_order k ts in if str_eq t.key k then some t else rest

unfoldable pub put_order : Tracked → List Tracked → List Tracked
put_order t [] = t ∷ []
put_order t (u ∷ us) = let rest = u ∷ put_order t us in if str_eq u.key t.key then t ∷ us else rest

module _ (D : DecimalOps) (dec : String → D.Decimal) where
  open D use {Decimal, sub, less}

  pub record OrderEvent : Type 0 where
    pub key : String
    pub of_order : String
    pub order_id : String
    pub kind : String
    pub at : ℕ
    pub from : Option ℕ
    pub quantity_delta : Option Decimal
    pub executed_quantity_delta : Option Decimal
    pub executed_delta : Option Decimal

  pub record Tables : Type 0 where
    pub tracked : List Tracked
    pub events : List OrderEvent

  -- The digest by SHA-256 of an order, and the size of the store that its triggers keep.
  pub record Outside : Type 0 where
    pub digest : LargeOrder → String
    pub size : Tables → ℕ

  abbrev pub executed_change : Option String → Option String → Option Decimal
  executed_change (some new) (some old) = some (sub (dec new) (dec old))
  executed_change _ _ = none

  abbrev pub is_less : Option Decimal → Bool
  is_less none = false
  is_less (some n) = less n (nil D)

  abbrev pub is_more : Option Decimal → Bool
  is_more none = false
  is_more (some n) = is_positive D n

  -- What was executed went down, or the facts changed without a newer time.
  abbrev pub corrects : Tracked → LargeOrder → ℕ → Bool
  corrects old r fact =
      is_less (executed_change r.executed_quantity old.order.executed_quantity)
      || less (sub (dec r.executed_usd) (dec old.order.executed_usd)) (nil D)
      || fact == old.fact_at && r.raw_state == old.order.raw_state

  -- The end of an order is not a change, unless it corrects one.
  abbrev pub ended_kind : ℕ → String → String
  ended_kind state kind =
      if str_eq kind "correction"
      then kind
      else if state == 2
      then "ended"
      else if state == 3
      then "revoked"
      else kind

  abbrev pub without_deltas : String → List OrderEvent → List OrderEvent
  without_deltas k [] = []
  without_deltas k (e ∷ es) =
      let rest = without_deltas k es in
      if str_eq e.of_order k
        && (str_eq e.kind "change" || str_eq e.kind "ended" || str_eq e.kind "revoked")
      then rest
      else e ∷ rest

  abbrev pub put_event : OrderEvent → List OrderEvent → List OrderEvent
  put_event v [] = v ∷ []
  put_event v (e ∷ es) =
      let rest = e ∷ put_event v es in if str_eq e.key v.key then v ∷ es else rest

  module _ (M : Outside) (d : Source) where
    abbrev pub discovered : LargeOrder → ℕ → OrderEvent
    discovered r fetched = record {
      key = glue (order_key d r) (M.digest (record r { changed = none }));
      of_order = order_key d r;
      order_id = r.id;
      kind = ended_kind r.raw_state "discovered";
      at = fetched;
      from = none;
      quantity_delta = none;
      executed_quantity_delta = none;
      executed_delta = none;
    }

    abbrev pub changed_event : Tracked → LargeOrder → ℕ → ℕ → OrderEvent
    changed_event old r fact fetched =
        let base = record (discovered r fetched) { from = some old.seen } in
        let executed = executed_change r.executed_quantity old.order.executed_quantity in
        if corrects old r fact then record base { kind = "correction" } else record base {
          kind = ended_kind r.raw_state "change";
          quantity_delta = some (sub (dec r.quantity) (dec old.order.quantity));
          executed_quantity_delta = executed;
          executed_delta =
              if is_more executed
              then some (sub (dec r.executed_usd) (dec old.order.executed_usd))
              else none;
        }

    abbrev pub new_row : LargeOrder → ℕ → Tracked
    new_row r fetched = record {
      first_seen = fetched;
      key = order_key d r;
      order = r;
      seen = fetched;
      fact_at = fact_time r fetched;
      revision = M.digest (record r { changed = none });
    }

    abbrev pub next_row : Tracked → LargeOrder → ℕ → Tracked
    next_row old r fetched = record (new_row r fetched) {
      first_seen = if is_zero old.first_seen then old.seen else old.first_seen;
    }

    -- An older answer, or one that resurrects a finished order.
    abbrev pub outdated : Tracked → LargeOrder → ℕ → Bool
    outdated old r fetched =
        ltb (fact_time r fetched) old.fact_at
        || ltb fetched old.seen
        || ltb 1 old.order.raw_state
          && r.raw_state == 1
          && not (ltb old.fact_at (fact_time r fetched))

    abbrev pub written : Bool → OrderEvent → List OrderEvent → List OrderEvent
    written room v es = if room then put_event v es else es

    abbrev pub corrected : Bool → String → List OrderEvent → List OrderEvent
    corrected b k es = if b then without_deltas k es else es

    -- One row of an answer. `room` is that neither a pause nor the limit holds.
    abbrev pub take_row : Bool → LargeOrder → ℕ → Option Tracked → Tables → Tables
    take_row false r fetched none t = t
    take_row true r fetched none t = record {
      tracked = put_order (new_row r fetched) t.tracked;
      events = put_event (discovered r fetched) t.events;
    }
    take_row room r fetched (some old) t =
        let same = str_eq old.revision (M.digest (record r { changed = none })) in
        let wrong = not same && corrects old r (fact_time r fetched) in
        if outdated old r fetched then t else record {
          tracked = put_order (next_row old r fetched) t.tracked;
          events =
              written (not same && room) (changed_event old r (fact_time r fetched) fetched)
                (corrected wrong (order_key d r) t.events);
        }

    -- The loop over the rows, with the size read again after each that was stored.
    unfoldable pub take_rows : Bool → List LargeOrder → ℕ → ℕ → Tables → Tables
    unfolding find_order put_order
    take_rows paused [] fetched bytes t = t
    take_rows paused (r ∷ rs) fetched bytes t =
        let u =
          take_row (not paused && ltb bytes limit) r fetched (find_order (order_key d r) t.tracked)
            t in
        take_rows paused rs fetched (M.size u) u

    -- `ingestOrders`.
    unfoldable pub ingest : Bool → List LargeOrder → ℕ → Tables → Tables
    unfolding take_rows
    ingest paused rs fetched t = take_rows paused rs fetched (M.size t) t
