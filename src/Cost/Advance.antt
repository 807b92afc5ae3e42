-- ===== src/Cost/Advance.antt =====
-- `costAdvanceCase` (internal/datahub/onchain_engine.go): one case and the price of one day.
use tidal_crypto_intelligenc.Base.{
  ℕ, ◌+◌, ◌*◌, Bool, true, false, not, ◌&&◌, ◌||◌, leb, ltb, ◌==◌, if◌then◌else◌, Option, none,
  some, List, [], ◌∷◌, String, str_eq, hour, is_none,
}
use tidal_crypto_intelligenc.Paper.Decimal.{DecimalOps}
use tidal_crypto_intelligenc.Cost.{
  Price, Phase, watching, pending, confirmed, invalidated, discovery_expired, pending_expired,
  tracking_expired, phase_name, unknown, available, Event, Digests, close_of, Case,
}

abbrev pub is_pending : Phase → Bool
is_pending pending = true
is_pending _ = false

abbrev pub is_confirmed : Phase → Bool
is_confirmed confirmed = true
is_confirmed _ = false

abbrev pub is_active : Phase → Bool
is_active watching = true
is_active pending = true
is_active confirmed = true
is_active _ = false

module _ (D : DecimalOps) (dec : String → D.Decimal) where
  -- `costBeyond`.
  unfoldable pub beyond : Case D → String → Bool
  beyond c price =
      if str_eq c.direction "down"
      then D.less (dec price) c.boundary
      else D.less c.boundary (dec price)

  abbrev pub last_may_confirm : Case D → ℕ → Bool
  last_may_confirm c expected =
      is_pending c.phase && c.count == 1 && c.last_date == c.through && expected == c.through + 1

  abbrev pub overdue : Case D → ℕ → Bool
  overdue c expected =
      is_confirmed c.phase && not (c.track_through == 0) && ltb c.track_through expected
      || not (is_confirmed c.phase) && ltb c.through expected && not (last_may_confirm c expected)

  abbrev pub expiry_of : Phase → Phase
  expiry_of confirmed = tracking_expired
  expiry_of pending = pending_expired
  expiry_of _ = discovery_expired

  module _ (H : Digests) where
    -- `costCaseEvent`.
    abbrev pub case_event : Case D → String → Price → ℕ → Event
    case_event c kind p now = record {
      id = H.of_event c.id kind p.date;
      kind = kind;
      date = p.date;
      detected = now;
      price = p.value;
      case_id = c.id;
      group = c.group;
      shadow = c.shadow;
    }

    abbrev pub end_case : Case D → Phase → Price → ℕ → Case D × List Event
    end_case c k p now = (record c { phase = k }, case_event c (phase_name k) p now ∷ [])

    -- A confirmed case is tracked.
    unfoldable pub track : Case D → Price → ℕ → Case D × List Event
    unfolding beyond
    track c p now =
        if not (c.track_through == 0) && ltb c.track_through p.date
        then end_case c tracking_expired p now
        else if beyond c p.value
        then (c, [])
        else end_case (record c { invalidated_date = p.date; invalidated_at = some now })
            invalidated p now

    abbrev pub detected : Case D → Price → ℕ → Case D
    detected c p now =
        if is_none c.first_detected_at
        then record c { phase = pending; first_detected_at = some now; first_price = p.value }
        else record c { phase = pending }

    -- Beyond the boundary, on one day or on the second of two.
    abbrev pub cross : Case D → Price → Bool → ℕ → Case D × List Event
    cross c p consecutive now =
        let d = record c { count = c.count + 1 } in
        if leb 2 d.count && consecutive
        then end_case (record d { confirmed_date = p.date; track_through = p.date + 60 }) confirmed
            p now
        else (detected d p now, case_event d "pending" p now ∷ [])

    -- Back within the boundary.
    abbrev pub return : Case D → Price → ℕ → Case D × List Event
    return c p now =
        let d = record c { count = 0; phase = watching } in
        if ltb c.through p.date
        then end_case d pending_expired p now
        else if is_pending c.phase
        then (d, case_event d "unconfirmed" p now ∷ [])
        else (d, [])

    unfoldable pub discover : Case D → Price → Bool → ℕ → Case D × List Event
    unfolding beyond
    discover c p consecutive now =
        if ltb p.date c.from
        then (c, [])
        else if ltb c.through p.date
            && not (is_pending c.phase && c.count == 1 && consecutive && p.date == c.through + 1)
        then end_case c (expiry_of c.phase) p now
        else if beyond c p.value
        then cross c p consecutive now
        else return c p now

    -- What every new price of the expected day writes.
    abbrev pub noted : Case D → Price → Bool → Case D
    noted c p consecutive = record c {
      quality = available;
      first_tracking_gap =
          if is_confirmed c.phase
            && not consecutive
            && not (c.last_date == 0)
            && c.first_tracking_gap == 0
          then c.last_date + 1
          else c.first_tracking_gap;
      count = if consecutive then c.count else 0;
      last_date = p.date;
      last_price = p.value;
    }

    unfoldable pub observe : Case D → Price → ℕ → Case D × List Event
    unfolding track discover
    observe c p now =
        let consecutive = c.last_date + 1 == p.date in
        if is_confirmed c.phase
        then track (noted c p consecutive) p now
        else discover (noted c p consecutive) p consecutive now

    abbrev pub or_missing : ℕ → Option Price → Price
    or_missing expected none = record { date = expected; value = ""; revision = "" }
    or_missing expected (some p) = p

    abbrev pub meet_price : Case D → Option Price → ℕ → ℕ → Case D × List Event
    meet_price c none expected now = (
      record c {
        quality = unknown;
        count = if is_pending c.phase && leb (close_of expected + 6 * hour) now then 0 else c.count;
      },
      [],
    )
    meet_price c (some p) expected now =
        if not (p.date == expected)
          || not (ltb c.frozen_at (close_of p.date))
          || leb p.date c.last_date
        then (record c { quality = if c.last_date == p.date then available else unknown }, [])
        else observe c p now

    -- The events are of the case as it is when they are made: with its quality unknown.
    unfoldable pub advance_case : Case D → Option Price → ℕ → ℕ → Case D × List Event
    unfolding observe
    advance_case c p expected now =
        if not (is_active c.phase)
        then (c, [])
        else if overdue c expected
        then end_case (record c { quality = unknown }) (expiry_of c.phase) (or_missing expected p)
            now
        else meet_price c p expected now
