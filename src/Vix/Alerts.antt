-- ===== src/Vix/Alerts.antt =====
-- The alerts of the watch: each band once in a cycle, and when a cycle ends.
pub mod Runs
use tidal_crypto_intelligenc.Base.{
  ℕ, ◌+◌, ◌*◌, ◌≤◌, ◌≡◌, All, inl, inr, Bool, true, false, ◌&&◌, ◌||◌, not, List, [], ◌∷◌, Option,
  none, some, some_inv, String, str_eq, minute, arith, Bool-cases, leb, if◌then◌else◌,
}
use mathlib.Core.Path.{subst}
use tidal_crypto_intelligenc.Paper.Decimal.{DecimalOps}
use tidal_crypto_intelligenc.Vix.{
  Point, Feed, Local, Level, low, elevated, watch, priority, level_of, is_delayed, quality,
}
use tidal_crypto_intelligenc.Vix.Cycle.{
  State, Event, Notice, Tables, supersede, Delivery, is_high, same_level, not_newer, interrupted,
  cool, alert, observe, revise, evaluate, no_cycle, since, corrects,
}
use tidal_crypto_intelligenc.Vix.Store.{
  Db, failure, last_of, goes_back, checked_low, ingest, opted_in, set_settings,
}

-- The cycle has an event of the level.
abbrev pub recorded : String → Level → List Event → Bool
recorded c l [] = false
recorded c l (e ∷ es) = str_eq e.cycle_id c && same_level e.level l || recorded c l es

-- No two events have the same cycle and level.
abbrev pub Once : List Event → Type 0
Once [] = Unit
Once (e ∷ es) = (recorded e.cycle_id e.level es ≡ false) × Once es

-- The events are distinct, and the state knows of those of the open cycle.
pub record IsSound (s : State) (es : List Event) : Type 0 where
  pub once : Once es
  pub watched :
      str_eq s.cycle_id "" ≡ false → s.watch_recorded ≡ false → recorded s.cycle_id watch es ≡ false
  pub prioritised :
      str_eq s.cycle_id "" ≡ false
      → s.priority_recorded ≡ false
      → recorded s.cycle_id priority es ≡ false

-- The id of no event's cycle.
abbrev pub IsFresh : String → List Event → Type 0
IsFresh c es = (recorded c watch es ≡ false) × (recorded c priority es ≡ false)

alert-IsSound :
    (fresh : String) (now : ℕ) (d : Delivery) (initial : Bool) (l : Level) (p : Point) (s : State)
    (t : Tables)
    → is_high l ≡ true
    → IsFresh fresh t.events
    → IsSound s t.events
    → let r = alert fresh now d initial l p s t in IsSound r.0 r.1.events
unfolding alert
alert-IsSound fresh now d initial low p s t h f k = cc
alert-IsSound fresh now d initial elevated p s t h f k = cc
alert-IsSound fresh now d initial watch p s t h f k = elim (Bool-cases s.watch_recorded) [
  | inl e ↦ rw e (record { once = k.once; watched = λ a b. cc; prioritised = k.prioritised })
  | inr e ↦ elim (Bool-cases (str_eq s.cycle_id "")) [
    | inl g ↦
        rw (e, g)
          (record { once = (f.0, k.once); watched = λ a b. cc; prioritised = λ a b. ground arith })
    | inr g ↦
        rw (e, g)
          (record {
            once = (k.watched g e, k.once);
            watched = λ a b. cc;
            prioritised = λ a b. let old = k.prioritised g in ground arith;
          })
  ]
]
alert-IsSound fresh now d initial priority p s t h f k = elim (Bool-cases s.priority_recorded) [
  | inl e ↦ rw e (record { once = k.once; watched = k.watched; prioritised = λ a b. cc })
  | inr e ↦ elim (Bool-cases (str_eq s.cycle_id "")) [
    | inl g ↦
        rw (e, g) (record { once = (f.1, k.once); watched = λ a b. cc; prioritised = λ a b. cc })
    | inr g ↦
        rw (e, g)
          (record {
            once = (k.prioritised g e, k.once);
            watched = λ a b. cc;
            prioritised = λ a b. cc;
          })
  ]
]

-- States that the alerts do not tell apart, or without a cycle.
pub low_changed :
    (s : State) (es : List Event) (o : Option ℕ) (q : Option Point) (b : Bool)
    → IsSound s es
    → IsSound (record s { low_since = o; last_point = q; first_observation = b }) es
low_changed s es o q b k = record {
  once = k.once;
  watched = k.watched;
  prioritised = k.prioritised;
}

no_cycle-IsSound : (s : State) (es : List Event) → Once es → IsSound (no_cycle s) es
no_cycle-IsSound s es o = record { once = o; watched = λ a b. cc; prioritised = λ a b. cc }

cool-IsSound : (p : Point) (s : State) (es : List Event) → IsSound s es → IsSound (cool p s) es
unfolding cool
cool-IsSound p s es k =
    let begun = since s.low_since p.at in
    elim (Bool-cases (str_eq s.cycle_id "")) [
      | inl e ↦ rw e k
      | inr e ↦ elim (Bool-cases (leb (begun + 30 * minute) p.at)) [
        | inl f ↦ rw (e, f) (no_cycle-IsSound s es k.once)
        | inr f ↦ rw (e, f) (low_changed s es (some begun) s.last_point s.first_observation k)
      ]
    ]

revise-IsSound : (p : Point) (s : State) (es : List Event) → IsSound s es → IsSound (revise p s) es
unfolding revise
revise-IsSound p s es k = elim (Bool-cases (corrects s.last_point p)) [
  | inl e ↦ rw e (low_changed s es none (some p) s.first_observation k)
  | inr e ↦ rw e k
]

observe-IsSound :
    (fresh : String) (now : ℕ) (d : Delivery) (l : Level) (p : Point) (s : State) (t : Tables)
    → IsFresh fresh t.events
    → IsSound s t.events
    → let r = observe fresh now d l p s t in IsSound r.0 r.1.events
unfolding observe
observe-IsSound fresh now d l p s t f k =
    let kept = if interrupted s.last_point p then record s { low_since = none } else s in
    let held : IsSound kept t.events = elim (Bool-cases (interrupted s.last_point p)) [
      | inl e ↦ rw e (low_changed s t.events none s.last_point s.first_observation k)
      | inr e ↦ rw e k
    ] in
    elim (Bool-cases (is_high l)) [
      | inl e ↦ rw e (
          alert-IsSound fresh now d s.first_observation l p _ t e f
            (low_changed kept t.events none (some p) false held))
      | inr e ↦
          rw e (
            cool-IsSound p _ t.events
              (low_changed kept t.events kept.low_since (some p) false held))
    ]

-- A low interval that has lasted 30 minutes at `at`.
abbrev pub LongLow : Option ℕ → ℕ → Type 0
LongLow none at = ⊥
LongLow (some start) at = start + 30 * minute ≤ at

-- No notice of the cycle's ordinary alert is waiting to be sent.
abbrev pub NoneWaiting : String → List Notice → Type 0
NoneWaiting c =
    All
      (λ n. (str_eq n.cycle_id c && same_level n.level watch && str_eq n.status "pending") ≡ false)

supersede-NoneWaiting : (c : String) (ns : List Notice) → NoneWaiting c (supersede c ns)
unfolding supersede
supersede-NoneWaiting c [] = tt
supersede-NoneWaiting c (n ∷ ns) =
    let waits = str_eq n.cycle_id c && same_level n.level watch && str_eq n.status "pending" in
    elim (Bool-cases waits) [
      | inl e ↦ rw e (ground arith, supersede-NoneWaiting c ns)
      | inr e ↦ rw e (e, supersede-NoneWaiting c ns)
    ]

-- A priority alert that is given leaves no ordinary one of its cycle waiting.
pub alert_supersedes :
    (fresh : String) (now : ℕ) (d : Delivery) (initial : Bool) (p : Point) (s : State) (t : Tables)
    → s.priority_recorded ≡ false
    → let r = alert fresh now d initial priority p s t in
      (r.0.priority_recorded ≡ true) × NoneWaiting r.0.cycle_id r.1.notices
unfolding alert
alert_supersedes fresh now d initial p s t h =
    rw h (ground arith, (ground arith, supersede-NoneWaiting _ t.notices))

module _ (D : DecimalOps) (dec : String → D.Decimal) where
  pub evaluate-IsSound :
      (fresh : String) (now : ℕ) (d : Delivery) (p : Point) (s : State) (t : Tables)
      → IsFresh fresh t.events
      → IsSound s t.events
      → let r = evaluate D dec fresh now d p s t in IsSound r.0 r.1.events
  unfolding evaluate
  evaluate-IsSound fresh now d p s t f k =
      let l = level_of D dec p.value in
      elim (Bool-cases (not_newer s.last_point p)) [
        | inl e ↦ rw e (revise-IsSound p s t.events k)
        | inr e ↦ rw e (observe-IsSound fresh now d l p s t f k)
      ]

  -- An evaluation ends an open cycle only by a newer value below the bands, with the low interval
  -- begun at least 30 minutes before it, and the point before at most five minutes before it.
  pub evaluate_ends :
      (fresh : String) (now : ℕ) (d : Delivery) (p : Point) (s : State) (t : Tables)
      → str_eq s.cycle_id "" ≡ false
      → str_eq (evaluate D dec fresh now d p s t).0.cycle_id "" ≡ true
      → (is_high (level_of D dec p.value) ≡ false)
        × (not_newer s.last_point p ≡ false)
        × (interrupted s.last_point p ≡ false)
        × LongLow s.low_since p.at
  unfolding evaluate observe revise cool alert
  evaluate_ends fresh now d p s t h e = ground arith
