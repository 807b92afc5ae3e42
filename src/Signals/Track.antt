-- ===== src/Signals/Track.antt =====
-- The signals' documents and a tick's updates (internal/datahub/signals.go, multifactor_engine.go):
-- `openSignals`, the loop of `processSignals` over them, `updatePriceProgress` and the documents that
-- `commitSignals` writes. The facts that `finalPriceProgress` reads are an argument.
pub mod Confirmed
pub mod Closed
use Prim.Native.String.{len}
use tidal_crypto_intelligenc.Base.{
  ℕ, zero, suc, ◌+◌, ◌-◌, ◌*◌, Bool, true, false, not, ◌&&◌, ◌||◌, ltb, leb, ◌==◌, if◌then◌else◌,
  Option, none, some, List, [], ◌∷◌, ◌++◌, String, str_eq, has_prefix, is_none, is_some, minute,
  hour,
}
use tidal_crypto_intelligenc.Study.Prices.{Floats, Candles}
use tidal_crypto_intelligenc.Signals.{Bars, or_else, if_some}
use tidal_crypto_intelligenc.Signals.Lifecycle.{
  Signal, PriceProgress, LifecycleRepair, confirms, reverse_bars, price_progress, progress_terminal,
}

abbrev pub take {ℓ} : {A : Type ℓ} → ℕ → List A → List A
take n [] = []
take zero (x ∷ xs) = []
take (suc n) (x ∷ xs) = x ∷ take n xs

module _ (F : Floats) where
  -- `ORDER BY at`, and its reverse.
  unfoldable pub insert_by :
      (Signal F → Signal F → Bool) → Signal F → List (Signal F) → List (Signal F)
  insert_by before s [] = s ∷ []
  insert_by before s (t ∷ ts) =
      let rest = t ∷ insert_by before s ts in if before s t then s ∷ t ∷ ts else rest

  unfoldable pub sort_by : (Signal F → Signal F → Bool) → List (Signal F) → List (Signal F)
  unfolding insert_by
  sort_by before [] = []
  sort_by before (s ∷ ss) = insert_by before s (sort_by before ss)

  unfoldable pub select : (Signal F → Bool) → List (Signal F) → List (Signal F)
  select p [] = []
  select p (s ∷ ss) = let rest = select p ss in if p s then s ∷ rest else rest

  abbrev pub is_unfinished : Signal F → Bool
  is_unfinished s = str_eq s.state "anomaly" || str_eq s.state "weakened"

  abbrev pub is_open : Signal F → Bool
  is_open s = is_unfinished s && is_none s.confirmed_at

  -- `openSignals`.
  unfoldable pub open_signals : String → List (Signal F) → List (Signal F)
  unfolding sort_by select
  open_signals a rows =
      take 512 (sort_by (λ s t. leb s.at t.at) (select (λ s. str_eq s.asset a && is_open s) rows))

  -- What a tick has of the bars, the prices and the clock.
  pub record Inputs : Type 0 where
    pub bars : Bars
    pub candles : Candles F
    pub end : ℕ
    pub now : ℕ
    pub fresh : Bool
    pub new_bar : Bool
    pub initialized : Bool

  abbrev pub expired : Inputs → Signal F → Signal F
  expired x s =
      let late = x.initialized || ltb (s.expires + 5 * minute) x.now in
      record s {
        state = "expired";
        repair = if late then some (record { at = x.now; previous_state = s.state }) else s.repair;
      }

  abbrev pub turned : Inputs → Signal F → Signal F
  turned x s =
      if leb s.expires x.now
      then expired x s
      else if x.fresh && x.new_bar && not x.initialized
      then if confirms F s x.bars x.candles x.end
        then record s {
          state = "confirmed";
          confirmed_at = some x.now;
          confirmed_through = some x.end;
        }
        else if reverse_bars x.bars x.end s.direction
        then record s { state = "weakened" }
        else s
      else s

  -- One open signal: the update, if its state changes.
  unfoldable pub track : Inputs → Signal F → Option (Signal F)
  unfolding confirms reverse_bars price_progress
  track x s =
      let t = turned x s in
      if str_eq s.state t.state
      then none
      else some (record t {
        progress = some (price_progress F t x.bars x.candles x.end x.now x.fresh);
        updated = x.now;
      })

  unfoldable pub track_all : Inputs → List (Signal F) → List (Signal F)
  unfolding track
  track_all x [] = []
  track_all x (s ∷ ss) = if_some (track x s) (track_all x ss) (λ u. u ∷ track_all x ss)

  -- The row of an id is replaced, or a new one is added.
  unfoldable pub put_row : Signal F → List (Signal F) → List (Signal F)
  put_row u [] = u ∷ []
  put_row u (s ∷ ss) = let rest = s ∷ put_row u ss in if str_eq s.id u.id then u ∷ ss else rest

  unfoldable pub find_row : String → List (Signal F) → Option (Signal F)
  find_row id [] = none
  find_row id (s ∷ ss) = let rest = find_row id ss in if str_eq s.id id then some s else rest

  -- The query of `updatePriceProgress`.
  abbrev pub like_completed : String → Bool
  like_completed st = has_prefix st "completed" && leb 10 (len st)

  abbrev pub is_followed : Signal F → Bool
  is_followed s =
      is_unfinished s
      || is_some s.confirmed_through
        && if_some s.progress true
            (λ p. not (like_completed p.status) && not (str_eq p.status "ended_with_gap"))

  abbrev pub followed_signals : String → List (Signal F) → List (Signal F)
  followed_signals a rows =
      take 512
        (sort_by (λ s t. leb t.at s.at) (select (λ s. str_eq s.asset a && is_followed s) rows))

  abbrev pub same_progress : Inputs → PriceProgress F → Option (PriceProgress F) → Bool
  same_progress x p none = false
  same_progress x p (some q) = (q.data_through == x.end) && str_eq q.status p.status

  module _ (tail : Signal F → Bars × Candles F) where
    -- `finalPriceProgress`, of the facts known by the deadline.
    abbrev pub final_price_progress : Signal F → ℕ → ℕ → PriceProgress F
    final_price_progress s through now =
        let facts = tail s in price_progress F s facts.0 facts.1 (through + 4 * hour) now true

    abbrev pub progress_now : Inputs → Signal F → PriceProgress F
    progress_now x s =
        let p = price_progress F s x.bars x.candles x.end x.now x.fresh in
        if_some s.confirmed_through p
          (λ c. if leb (c + 4 * hour) x.now then final_price_progress s c x.now else p)

    -- One round of `updatePriceProgress`.
    unfoldable pub follow : Inputs → Signal F → List (Signal F) → List (Signal F)
    unfolding price_progress find_row put_row
    follow x row updates =
        let s = or_else (find_row row.id updates) row in
        let p = progress_now x s in
        if progress_terminal F s.progress || same_progress x p s.progress
        then updates
        else put_row (record s { progress = some p }) updates

    unfoldable pub follow_all : Inputs → List (Signal F) → List (Signal F) → List (Signal F)
    unfolding follow
    follow_all x [] updates = updates
    follow_all x (s ∷ ss) updates = follow_all x ss (follow x s updates)

    unfoldable pub put_rows : List (Signal F) → List (Signal F) → List (Signal F)
    unfolding put_row
    put_rows [] rows = rows
    put_rows (u ∷ us) rows = put_rows us (put_row u rows)

    -- The lifecycle of a tick for an asset, committed.
    unfoldable pub lifecycle : Inputs → String → List (Signal F) → List (Signal F)
    unfolding open_signals track_all follow_all put_rows
    lifecycle x a rows =
        let updates = track_all x (open_signals a rows) in
        put_rows (follow_all x (followed_signals a rows) updates) rows

    unfoldable pub lifecycles : List (Inputs × String) → List (Signal F) → List (Signal F)
    unfolding lifecycle
    lifecycles [] rows = rows
    lifecycles ((x, a) ∷ xs) rows = lifecycles xs (lifecycle x a rows)
