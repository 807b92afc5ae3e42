-- ===== src/Cost/Structure.antt =====
-- `costCompressed` (internal/datahub/onchain_events.go) and `costAdvanceV2` (onchain_engine.go): one
-- evaluation of a day, with its cases and the structure of the supply. The evaluation reads the
-- clock, the day's frame and price, if there are any, and the closing prices by date.
use tidal_crypto_intelligenc.Base.{
  ℕ, ◌+◌, ◌-◌, ◌*◌, Bool, true, false, not, ◌&&◌, ◌||◌, leb, ltb, ◌==◌, if◌then◌else◌, Option, none,
  some, List, [], ◌∷◌, ◌++◌, String, str_eq, hour,
}
use tidal_crypto_intelligenc.Paper.Decimal.{DecimalOps, at_most}
use tidal_crypto_intelligenc.Cost.{
  Zone, Price, Phase, Event, Digests, date_of, close_of, Bounds, Metrics, Case,
}
use tidal_crypto_intelligenc.Cost.Advance.{is_active, advance_case}
use tidal_crypto_intelligenc.Cost.Cases.{Cycle, over_zones, price_channel}

pub record Frame : Type 0 where
  pub date : ℕ
  pub price : String
  pub method : String
  pub revision : String

pub record Watch : Type 0 where
  pub zone : Zone
  pub phase : Phase
  pub count : ℕ

abbrev pub onchain_rules : String
onchain_rules = "onchain-cost-2"

module _ (D : DecimalOps) where
  pub record State : Type 0 where
    pub rules : String
    pub cycle : String
    pub frozen_at : ℕ
    pub from : ℕ
    pub through : ℕ
    pub revision : String
    pub last_date : ℕ
    pub watches : List Watch
    pub compression : Bool
    pub meet : ℕ
    pub clear : ℕ
    pub initial : Bool
    pub cases : List (Case D)
    pub episode_id : String
    pub structure_last_date : ℕ
    pub baseline_through : ℕ
    pub low_meet : ℕ
    pub low_clear : ℕ
    pub low_active : Bool
    pub low_last_date : ℕ
    pub enabled_at : ℕ

  pub record Inputs : Type 0 where
    pub frame : Option Frame
    pub metrics : Option (Metrics D)
    pub price : Option Price
    pub prices : ℕ → Option String
    pub now : ℕ
    pub structure : Bool

  abbrev pub ranked : Bounds D → D.Decimal → Option Bool
  ranked b v =
      let calm = at_most D v (D.of_int 20) in
      if calm && D.less b.lower (D.of_int 80) && at_most D (D.of_int 80) b.upper
      then none
      else some (at_most D (D.of_int 80) b.lower && calm)

  abbrev pub both_ranked : Option (Bounds D) → Option D.Decimal → Option Bool
  both_ranked (some b) (some v) = ranked b v
  both_ranked _ _ = none

  -- `costCompressed`.
  unfoldable pub compressed : Metrics D → Option Bool
  compressed m = both_ranked m.concentration_rank m.volatility_rank

  abbrev pub started : ℕ → State → State
  started now s = if str_eq s.rules onchain_rules then record s { initial = false } else record s {
    rules = onchain_rules;
    enabled_at = now;
    meet = 0;
    clear = 0;
    compression = false;
    structure_last_date = 0;
    last_date = 0;
    low_last_date = 0;
    low_meet = 0;
    low_clear = 0;
    low_active = false;
    through = 0;
    baseline_through = 0;
    initial = true;
  }

  abbrev pub uncased : String → ℕ → String → String → Event
  uncased kind date id price = record {
    id = id;
    kind = kind;
    date = date;
    detected = 0;
    price = price;
    case_id = "";
    group = "";
    shadow = false;
  }

  module _ (dec : String → D.Decimal) (H : Digests) where
    unfoldable pub advance_all : List (Case D) → Option Price → ℕ → ℕ → List (Case D) × List Event
    unfolding advance_case
    advance_all [] p day now = ([], [])
    advance_all (c ∷ cs) p day now =
        let r = advance_case D dec H c p day now in
        let s = advance_all cs p day now in (r.0 ∷ s.0, r.1 ++ s.1)

    abbrev pub cycle_of : String → String → String → ℕ → Cycle
    cycle_of group method revision now = record {
      group = group;
      method = method;
      revision = revision;
      id = H.of_cycle group now revision;
      now = now;
    }

    -- A cycle of the supply, when the last one is over.
    abbrev pub open_cycle :
        Inputs → ℕ → Option Frame → Option (Metrics D) → State → State × List Event
    open_cycle i day (some f) (some m) s =
        let y = cycle_of "onchain" f.method f.revision i.now in
        let opened = record s {
          cycle = y.id;
          frozen_at = i.now;
          from = date_of i.now;
          through = date_of i.now + 6;
          revision = f.revision;
          cases = over_zones D dec H y m.zones s.cases;
        } in
        if i.structure && (s.through == 0 || ltb s.through day)
        then (
          opened,
          if s.through == 0
              then record (uncased "initialized" f.date (H.of_initial y.id) f.price) {
                detected = i.now;
              }
                ∷ []
              else [],
        )
        else (s, [])
    open_cycle i day _ _ s = (s, [])

    -- A cycle of the price alone.
    abbrev pub open_channel : Inputs → ℕ → Option Price → State → State
    open_channel i day none s = s
    open_channel i day (some p) s =
        let y = cycle_of "price_only" "20-completed-daily-close-channel" p.revision i.now in
        let zones = price_channel D dec day i.prices in
        let opened = record s {
          baseline_through = date_of i.now + 6;
          cases = over_zones D dec H y zones s.cases;
        } in
        if s.baseline_through == 0 || ltb s.baseline_through day
        then (elim zones [ [] ↦ s | _ ∷ _ ↦ opened ])
        else s

    -- One more day of a compressed structure.
    abbrev pub met : Inputs → ℕ → Frame → Bool → Bool → State → State × List Event
    met i day f first consecutive s =
        let n = record s { clear = 0; meet = s.meet + 1 } in
        let id = H.of_structure (some day) i.now in
        if first
        then (record n { compression = true; episode_id = H.of_structure none i.now }, [])
        else if leb 2 n.meet && consecutive && not s.compression
        then (
          record n { compression = true; episode_id = id },
          record (uncased "concentrated" day id f.price) { detected = i.now; group = "structure" }
              ∷ [],
        )
        else (n, [])

    abbrev pub weigh : Inputs → ℕ → Frame → Bool → Bool → Option Bool → State → State × List Event
    weigh i day f first consecutive none s = (record s { meet = 0; clear = 0 }, [])
    weigh i day f first consecutive (some true) s = met i day f first consecutive s
    weigh i day f first consecutive (some false) s = (
      record s {
        meet = 0;
        clear = s.clear + 1;
        compression = if leb 2 (s.clear + 1) then false else s.compression;
      },
      [],
    )

    abbrev pub late : Inputs → ℕ → State → State
    late i day s =
        if not i.structure
          && not (s.structure_last_date == day)
          && leb (close_of day + 6 * hour) i.now
        then record s { meet = 0; clear = 0 }
        else s

    unfoldable pub judge_structure :
        Inputs → ℕ → Bool → Option Frame → Option (Metrics D) → State → State × List Event
    unfolding compressed
    judge_structure i day first (some f) (some m) s =
        let consecutive = s.structure_last_date + 1 == day in
        let reset = if consecutive then s else record s { meet = 0; clear = 0 } in
        let r = weigh i day f first consecutive (compressed m) reset in
        if i.structure && f.date == day && not (s.structure_last_date == day)
        then (record (r.0) { structure_last_date = day }, r.1)
        else (late i day s, [])
    judge_structure i day first _ _ s = (late i day s, [])

    abbrev pub priced : Option Price → ℕ → State → State
    priced none day s = s
    priced (some p) day s = record s { last_date = day }

    unfoldable pub watches_of : List (Case D) → List Watch
    watches_of [] = []
    watches_of (c ∷ cs) =
        let rest = watches_of cs in
        if is_active c.phase && not c.shadow
        then record { zone = c.zone; phase = c.phase; count = c.count } ∷ rest
        else rest

    -- `costAdvanceV2`.
    unfoldable pub advance : Inputs → State → State × List Event
    unfolding advance_all over_zones price_channel judge_structure watches_of
    advance i s =
        let day = date_of i.now - 1 in
        let begun = started i.now s in
        let moved = advance_all begun.cases i.price day i.now in
        let cased = open_cycle i day i.frame i.metrics (record begun { cases = moved.0 }) in
        let channel = open_channel i day i.price cased.0 in
        let judged = judge_structure i day (begun.through == 0) i.frame i.metrics channel in
        let ended = priced i.price day judged.0 in
        (record ended { watches = watches_of ended.cases }, moved.1 ++ cased.1 ++ judged.1)
