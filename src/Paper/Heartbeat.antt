-- ===== src/Paper/Heartbeat.antt =====
-- `heartbeat` (internal/datahub/paper_engine.go): the gap's end, the clocks, the equity samples and
-- the expiry of pending intents.
pub mod Recovery
use tidal_crypto_intelligenc.Base.{
  ℕ, ◌+◌, ◌-◌, ◌*◌, Bool, true, false, not, ◌&&◌, ◌||◌, ltb, leb, ◌==◌, if◌then◌else◌, List, [],
  ◌∷◌, Option, none, some, String, str_eq, second, minute, hour, zero_time, is_zero, is_some,
  is_none, truncate, unix,
}
use tidal_crypto_intelligenc.Paper.Decimal.{DecimalOps, nil}
use tidal_crypto_intelligenc.Paper.Types.{
  Quote, Intent, Trade, Account, State, Batch, Equity, PaperEvent, empty_batch, join, intake_record,
  sign, paper_initial, quote_valid, instrument_valid,
}
use tidal_crypto_intelligenc.Paper.Trading.{close_quote}
use tidal_crypto_intelligenc.Paper.Funding.{funding_known}
use tidal_crypto_intelligenc.Paper.Admission.{quote_fresh}
use tidal_crypto_intelligenc.Paper.Store.{Store, commit}
use tidal_crypto_intelligenc.Paper.Gap.{discontinuity, rows_of}

module _ (D : DecimalOps) where
  open D use {Decimal, add, sub, mul}

  -- A fresh quote and a fresh mark.
  unfoldable pub good : Store D → ℕ → Bool
  good p now =
      quote_fresh D p.quote now && not (is_zero p.mark_at) && leb now (p.mark_at + 5 * second)

  -- The gap ends after 30 seconds on end.
  unfoldable pub recover : Bool → ℕ → State D → State D
  recover fine now s =
      let since = if is_zero s.good_since then now else s.good_since in
      if fine
      then if leb (since + 30 * second) now
        then record s { good_since = since; gap = false; pause = "" }
        else record s { good_since = since }
      else record s { good_since = zero_time; gap = true }

  unfoldable pub paused : Store D → Bool → State D → State D
  paused p protected s =
      let held = if protected then record s { pause = "storage_reserve" } else s in
      if str_eq p.mode "run" then held else record held { pause = "collection_only" }

  abbrev pub atr_current : Option (Intent D) → ℕ → Bool
  atr_current none now = false
  atr_current (some r) now = r.atr_through == truncate now hour

  -- Everything that a covered second needs.
  unfoldable pub covered : Store D → Bool → ℕ → ℕ → State D → Bool
  covered p fine now seconds s =
      fine
      && not s.gap
      && leb seconds 2
      && not (is_zero p.source_at)
      && leb now (p.source_at + 2 * second)
      && instrument_valid D p.instrument now
      && atr_current p.atr now
      && funding_known D s now true

  -- The counts of wall time, once the experiment has begun.
  unfoldable pub count_time : Store D → Bool → ℕ → State D → State D
  unfolding covered
  count_time p fine now s =
      let seconds = unix now - unix s.last_tick in
      let observed = record s { observed_seconds = s.observed_seconds + seconds } in
      if not (is_zero s.last_tick) && ltb s.last_tick now && is_some s.origin
      then if covered p fine now seconds s
        then record observed { covered_seconds = s.covered_seconds + seconds }
        else observed
      else s

  -- The open position's profit at the quote.
  abbrev pub unrealized : Option (Trade D) → Option (Quote D) → Decimal
  unrealized (some t) (some q) = mul (mul (sub (close_quote D t q) t.entry) t.remaining) (sign D t)
  unrealized _ _ = nil D

  unfoldable pub sample : Store D → Bool → ℕ → State D → Account D → Equity D
  sample p known now s a =
      let u = unrealized a.position p.quote in
      record {
        at = now;
        group = a.group;
        before_funding =
            if known then some (add (sub (add (paper_initial D) a.gross) a.fees) u) else none;
        unrealized = if known then some u else none;
        occupied = is_some a.position;
        covered_seconds = s.covered_seconds;
        observed_seconds = s.observed_seconds;
      }

  unfoldable pub sample_all : Store D → Bool → Bool → ℕ → State D → List (Account D) → Batch D
  unfolding sample
  sample_all p protected known now s [] = empty_batch D
  sample_all p protected known now s (a ∷ accounts) =
      let rest = sample_all p protected known now s accounts in
      let one = record (empty_batch D) {
        equity = sample p known now s a ∷ [];
        trades = rows_of D a.position;
      } in
      if protected && is_none a.position then rest else join D one rest

  -- A pending intent whose signal is older than 30 seconds is dropped.
  abbrev pub old_pending : ℕ → Option (Intent D) → Bool
  old_pending now none = false
  old_pending now (some i) = ltb (i.signal.at + 30 * second) now

  abbrev pub skipped : State D → ℕ → Account D → Option (Intent D) → Batch D
  skipped s now a none = empty_batch D
  skipped s now a (some i) = record (empty_batch D) {
    intakes = intake_record D s a i now "skipped" "signal_expired" ∷ [];
  }

  unfoldable pub expire_all : State D → ℕ → List (Account D) → List (Account D) × Batch D
  expire_all s now [] = ([], empty_batch D)
  expire_all s now (a ∷ accounts) =
      let rest = expire_all s now accounts in
      if old_pending now a.pending
      then (record a { pending = none } ∷ rest.0, join D (skipped s now a a.pending) rest.1)
      else (a ∷ rest.0, rest.1)

  -- The equity sample of the minute, and the batch so far.
  unfoldable pub sampled : Store D → Bool → Bool → ℕ → State D → State D × Batch D
  unfolding sample_all
  sampled p fine protected now s =
      if is_some s.origin && leb (s.last_sample + minute) now
      then (
        record s { last_sample = now; equity_gap = false },
        sample_all p protected (fine && not s.gap && not s.equity_gap) now s s.accounts,
      )
      else (s, empty_batch D)

  abbrev pub recovered : Bool → ℕ → State D → List PaperEvent
  recovered was_gap now s =
      if was_gap && not s.gap
      then record { at = now; kind = "recovered"; reason = "continuous_30s" } ∷ []
      else []

  -- From the state after a possible gap to the state and batch that are committed.
  unfoldable pub beat : Store D → Bool → Bool → ℕ → State D → State D × Batch D
  unfolding recover paused count_time sampled expire_all
  beat p was_gap protected now s =
      let fine = good p now in
      let timed = count_time p fine now (paused p protected (recover fine now s)) in
      let r = sampled p fine protected now timed in
      let e = expire_all (r.0) now (r.0).accounts in
      let b = join D (record (empty_batch D) { events = recovered was_gap now timed }) r.1 in
      (record (r.0) { accounts = e.0; at = now; last_tick = now }, join D b e.1)

  unfoldable pub heartbeat : Bool → Bool → ℕ → Bool → Store D → Store D × Bool
  unfolding beat good
  heartbeat gap_taken taken now protected p =
      let cut =
        if not (good p now) && not p.state.gap
        then discontinuity D gap_taken now "market_gap" p
        else (p, true) in
      let r = beat cut.0 p.state.gap protected now (cut.0).state in
      if cut.1 then commit D taken r.0 r.1 cut.0 else cut
