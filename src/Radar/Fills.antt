-- ===== src/Radar/Fills.antt =====
-- The loop over the fills in `radarApply` (internal/datahub/radar_engine.go): episodes of a
-- position, and what breaks their continuity.
use tidal_crypto_intelligenc.Base.{
  ℕ, ◌+◌, ◌*◌, Bool, false, not, ◌&&◌, ◌||◌, leb, ltb, ◌==◌, if◌then◌else◌, Option, none, some,
  List, [], ◌∷◌, ◌++◌, String, str_eq, second, minute, zero_time, is_none,
}
use tidal_crypto_intelligenc.Paper.Decimal.{DecimalOps, nil, is_nil, is_positive, at_most}
use tidal_crypto_intelligenc.Radar.{
  Fill, valid_asset, radar_time, Reading, abs, sign_of, number, Event, Position,
}
use tidal_crypto_intelligenc.Radar.Transition.{newly_open, Change, transition}

abbrev pub same_key : Fill → Fill → Bool
same_key f g = str_eq f.coin g.coin && f.time == g.time && f.tid == g.tid

abbrev pub same_flag : Bool → Bool → Bool
same_flag a b = if a then b else not b

-- The stored bytes are those of the fill.
abbrev pub same_fill : Fill → Fill → Bool
same_fill f g =
    same_key f g
    && str_eq f.px g.px
    && str_eq f.sz g.sz
    && str_eq f.side g.side
    && str_eq f.start g.start
    && str_eq f.hash g.hash
    && same_flag f.negative_id g.negative_id

-- The row of the wallet's fills with the same key.
unfoldable pub find_fill : Fill → List Fill → Option Fill
find_fill f [] = none
find_fill f (g ∷ gs) = let rest = find_fill f gs in if same_key g f then some g else rest

module _ (D : DecimalOps) where
  open D use {Decimal, add, mul, of_int}

  -- `events[id]` and `events[v.ID] = v` of a map.
  unfoldable pub find_event : String → List (Event D) → Option (Event D)
  find_event id [] = none
  find_event id (v ∷ vs) = let rest = find_event id vs in if str_eq v.id id then some v else rest

  unfoldable pub put_event : Event D → List (Event D) → List (Event D)
  put_event v [] = v ∷ []
  put_event v (w ∷ ws) = let rest = w ∷ put_event v ws in if str_eq w.id v.id then v ∷ ws else rest

  -- The zero value that a map gives for a missing key.
  abbrev pub zero_event : Event D
  zero_event = record {
    id = "";
    address = "";
    asset = "";
    side = "";
    opened = zero_time;
    detected = zero_time;
    updated = zero_time;
    through = zero_time;
    threshold = none;
    closed = none;
    size = nil D;
    opened_quantity = nil D;
    opened_native = nil D;
    native = none;
    usd_cents = none;
    effective_leverage = none;
    concentration = none;
    deposit_cents = none;
    rapid = false;
    concentrated = false;
    age = "";
    history_complete = false;
    live_opening = false;
    verified = false;
    level = "";
    reasons = [];
    initial_recorded = false;
    upgrade_recorded = false;
  }

  abbrev pub or_zero : Option (Event D) → Event D
  or_zero none = zero_event
  or_zero (some v) = v

  abbrev pub or_fresh : Option (Event D) → Event D → Event D
  or_fresh none v = v
  or_fresh (some old) v = old

  -- The loop's variables, and the wallet's rows of `fills`. `intact` is `chainOK`.
  pub record Chain : Type 0 where
    pub positions : String → Position D
    pub events : List (Event D)
    pub intact : String → Bool
    pub fills : List Fill

  -- What the loop reads beside: the clock, the process's start, the wallet, the exchange rate (if
  -- it is known), the rows of `events`, and `radarEventID`, which is a digest by SHA-256.
  pub record Surroundings : Type 0 where
    pub now : ℕ
    pub boot : ℕ
    pub address : String
    pub age : String
    pub fx : Option Decimal
    pub stored : List (Event D)
    pub event_id : String → Fill → String

  abbrev pub set_at {ℓ} : {A : Type ℓ} → String → A → (String → A) → String → A
  set_at k v f k' = if str_eq k' k then v else f k'

  -- The end of an episode, by a close or a flip.
  abbrev pub ends : Change D → String → Bool
  ends c event =
      not (str_eq event "")
      && (is_nil D c.after
          || not (is_nil D c.before) && not (sign_of D c.before == sign_of D c.after))

  abbrev pub close_event : Surroundings → Fill → Event D → Event D
  close_event s f v = record v { closed = some (radar_time f.time); size = nil D; updated = s.now }

  abbrev pub side_of : Decimal → String
  side_of n = if D.less n (nil D) then "short" else "long"

  -- The event of a new episode.
  abbrev pub fresh_event : Surroundings → Fill → Change D → Event D
  fresh_event s f c = record zero_event {
    id = s.event_id s.address f;
    address = s.address;
    asset = f.coin;
    side = side_of c.after;
    opened = radar_time f.time;
    detected = s.now;
    updated = s.now;
    size = c.after;
    age = s.age;
    level = "candidate";
    live_opening = leb s.boot (radar_time f.time);
  }

  -- The notional in dollars reaches a million.
  abbrev pub large : Option Decimal → Decimal → Decimal → Bool
  large none after px = false
  large (some fx) after px = at_most D (of_int 1000000) (mul (mul (abs D after) px) fx)

  abbrev pub threshold_at : Option Decimal → Fill → Change D → Decimal → Option ℕ → Option ℕ
  threshold_at fx f c px old =
      if is_positive D c.opened && is_none old && large fx c.after px
      then some (radar_time f.time)
      else old

  -- The fill counts towards its episode; a broken chain disqualifies it.
  unfoldable pub grow : Surroundings → Fill → Change D → Decimal → Bool → Event D → Event D
  grow s f c px whole v =
      let grown = record v {
        size = c.after;
        through = radar_time f.time;
        updated = s.now;
        opened_quantity = add v.opened_quantity c.opened;
        opened_native = add v.opened_native (mul c.opened px);
        threshold = threshold_at s.fx f c px v.threshold;
      } in
      if whole
      then grown
      else record grown { live_opening = false; reasons = v.reasons ++ "仓位连续性缺口，不追认建仓" ∷ [] }

  -- The three steps on the events, and the position's episode after each.
  abbrev pub closing :
      Surroundings → Fill → Change D → List (Event D) × String → List (Event D) × String
  closing s f c (vs, event) =
      if ends c event
      then (put_event (close_event s f (or_zero (find_event event vs))) vs, "")
      else (vs, event)

  abbrev pub opening :
      Surroundings → Fill → Change D → List (Event D) × String → List (Event D) × String
  opening s f c (vs, event) =
      let fresh = fresh_event s f c in
      let v = or_fresh (find_event fresh.id s.stored) fresh in
      if newly_open D c.before c.after && not (is_nil D c.after)
      then (put_event v vs, v.id)
      else (vs, event)

  abbrev pub growing :
      Surroundings
      → Fill
      → Change D
      → Decimal
      → Bool
      → List (Event D) × String
      → List (Event D) × String
  growing s f c px whole (vs, event) =
      if str_eq event ""
      then (vs, event)
      else (put_event (grow s f c px whole (or_zero (find_event event vs))) vs, event)

  -- A fill that is new to the store.
  unfoldable pub record_fill : Surroundings → Fill → Change D → Decimal → Chain → Chain
  unfolding find_event put_event grow
  record_fill s f c px k =
      let p = k.positions f.coin in
      let fits = p.last == 0 || D.equal p.size c.before in
      let whole = k.intact f.coin && fits in
      let r = growing s f c px whole (opening s f c (closing s f c (k.events, p.event))) in
      let kept = record k { fills = k.fills ++ f ∷ [] } in
      if ltb f.time p.last
      then record kept { intact = set_at f.coin false k.intact }
      else record kept {
        events = r.0;
        intact = set_at f.coin whole k.intact;
        positions =
            set_at f.coin (record { size = c.after; event = r.1; last = f.time }) k.positions;
      }

  abbrev pub or_nil : Option Decimal → Decimal
  or_nil none = nil D
  or_nil (some n) = n

  module _ (R : Reading D) where
    -- An old fill must not differ; a new one is recorded.
    abbrev pub meet : Surroundings → Fill → Change D → Option Fill → Chain → Option Chain
    meet s f c (some old) k = if same_fill old f then some k else none
    meet s f c none k = some (record_fill s f c (or_nil (number D R f.px)) k)

    abbrev pub judge : Surroundings → Fill → Option (Change D) → Chain → Option Chain
    judge s f none k = none
    judge s f (some c) k =
        if ltb (s.now + 5 * second) (radar_time f.time)
        then none
        else meet s f c (find_fill f k.fills) k

    -- Another asset, or older than half an hour.
    abbrev pub ignored : ℕ → Fill → Bool
    ignored now f = not (valid_asset f.coin) || ltb (radar_time f.time + 30 * minute) now

    -- One round. `none` is an error, which rolls everything back.
    unfoldable pub take_fill : Surroundings → Fill → Chain → Option Chain
    unfolding record_fill find_fill transition
    take_fill s f k = if ignored s.now f then some k else judge s f (transition D R f) k

    abbrev pub and_then : Option Chain → (Chain → Option Chain) → Option Chain
    and_then none g = none
    and_then (some k) g = g k

    -- The loop, over the fills in order of their time.
    unfoldable pub take_fills : Surroundings → List Fill → Chain → Option Chain
    unfolding take_fill
    take_fills s [] k = some k
    take_fills s (f ∷ fs) k = and_then (take_fill s f k) (λ k'. take_fills s fs k')
