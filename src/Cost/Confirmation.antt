-- ===== src/Cost/Confirmation.antt =====
-- What a confirmation of a case rests on.
pub mod Runs
pub mod Once
use tidal_crypto_intelligenc.Base.{
  ℕ, ◌+◌, ◌*◌, ◌≤◌, ◌≡◌, refl, ◌⊎◌, inl, inr, ◌∙◌, sym, Bool, true, false, not, ◌&&◌, ◌||◌, leb,
  ltb, ◌==◌, if◌then◌else◌, Option, none, some, List, [], ◌∷◌, ◌++◌, String, str_eq, arith,
  Bool-cases, if-split, ltb→le, All, hour, is_none,
}
use mathlib.Core.Path.{subst}
use tidal_crypto_intelligenc.Paper.Decimal.{DecimalOps}
use tidal_crypto_intelligenc.Cost.{
  Price, Phase, watching, pending, confirmed, invalidated, discovery_expired, pending_expired,
  tracking_expired, phase_name, unknown, available, Event, Digests, close_of, Case,
}
use tidal_crypto_intelligenc.Cost.Advance.{
  is_pending, is_confirmed, is_active, beyond, overdue, expiry_of, track, cross, return, discover,
  noted, observe, meet_price, advance_case,
}

module _ (D : DecimalOps) (dec : String → D.Decimal) (H : Digests) where
  module _ (P : Price → Type 0) where
    -- A price of the last day that was taken, beyond the boundary.
    abbrev One : (String → Bool) → ℕ → ℕ → Type 0
    One out from last = (p : Price) × P p × (p.date ≡ last) × (out p.value ≡ true) × (from ≤ last)

    -- Prices of two days that follow each other, both beyond the boundary.
    abbrev pub Two : (String → Bool) → Type 0
    Two out =
        (p : Price) × (q : Price) × P p
        × P q
        × (p.date + 1 ≡ q.date)
        × (out p.value ≡ true)
        × (out q.value ≡ true)

    -- What is known of a case in each phase.
    abbrev pub Standing : (String → Bool) → ℕ → ℕ → ℕ → Phase → Type 0
    Standing out from last n watching = n ≡ 0
    Standing out from last n pending = (n ≡ 0) ⊎ ((n ≡ 1) × One out from last)
    Standing out from last n confirmed = Two out
    Standing out from last n invalidated = Two out
    Standing out from last n tracking_expired = Two out
    Standing out from last n discovery_expired = Unit
    Standing out from last n pending_expired = Unit

    abbrev pub Stands : Case D → Type 0
    Stands c = Standing (beyond D dec c) c.from c.last_date c.count c.phase

    -- A count in a phase of discovery is that of the last day.
    counted :
        (out : String → Bool) (from last n : ℕ) (k : Phase)
        → Standing out from last n k
        → is_active k ≡ true
        → is_confirmed k ≡ false
        → (n ≡ 0) ⊎ ((n ≡ 1) × One out from last)
    counted out from last n watching h a b = inl h
    counted out from last n pending h a b = h
    counted out from last n confirmed h a b = cc
    counted out from last n invalidated h a b = cc
    counted out from last n tracking_expired h a b = cc
    counted out from last n discovery_expired h a b = cc
    counted out from last n pending_expired h a b = cc

    tracked-Standing :
        (out : String → Bool) (from last n last' n' : ℕ) (k : Phase)
        → Standing out from last n k
        → Standing out from last' n' (expiry_of D dec k)
    tracked-Standing out from last n last' n' watching h = tt
    tracked-Standing out from last n last' n' pending h = tt
    tracked-Standing out from last n last' n' confirmed h = h
    tracked-Standing out from last n last' n' invalidated h = tt
    tracked-Standing out from last n last' n' tracking_expired h = tt
    tracked-Standing out from last n last' n' discovery_expired h = tt
    tracked-Standing out from last n last' n' pending_expired h = tt

    expired-Standing :
        (out : String → Bool) (from last n : ℕ) (k : Phase)
        → is_confirmed k ≡ false
        → Standing out from last n (expiry_of D dec k)
    expired-Standing out from last n watching h = tt
    expired-Standing out from last n pending h = tt
    expired-Standing out from last n confirmed h = cc
    expired-Standing out from last n invalidated h = tt
    expired-Standing out from last n tracking_expired h = tt
    expired-Standing out from last n discovery_expired h = tt
    expired-Standing out from last n pending_expired h = tt

    zero-Standing :
        (out : String → Bool) (from last n : ℕ) (k : Phase)
        → is_active k ≡ true
        → is_confirmed k ≡ false
        → n ≡ 0
        → Standing out from last n k
    zero-Standing out from last n watching a b z = z
    zero-Standing out from last n pending a b z = inl z
    zero-Standing out from last n confirmed a b z = cc
    zero-Standing out from last n invalidated a b z = cc
    zero-Standing out from last n tracking_expired a b z = cc
    zero-Standing out from last n discovery_expired a b z = cc
    zero-Standing out from last n pending_expired a b z = cc

    track-Standing :
        (c : Case D) (p : Price) (now : ℕ)
        → c.phase ≡ confirmed
        → Two (beyond D dec c)
        → Standing
            (beyond D dec c)
            c.from
            (track D dec H c p now).0.last_date
            (track D dec H c p now).0.count
            (track D dec H c p now).0.phase
    unfolding track
    track-Standing c p now e h =
        elim (Bool-cases (not (c.track_through == 0) && ltb c.track_through p.date)) [
          | inl t ↦ rw t h
          | inr t ↦ elim (Bool-cases (beyond D dec c p.value)) [
            | inl b ↦
                rw (t, b) (subst (Standing (beyond D dec c) c.from c.last_date c.count) (sym e) h)
            | inr b ↦ rw (t, b) h
          ]
        ]

    cross-Standing :
        (c : Case D) (p : Price) (consecutive : Bool) (now : ℕ)
        → P p
        → c.last_date ≡ p.date
        → c.from ≤ p.date
        → beyond D dec c p.value ≡ true
        → (c.count ≡ 0) ⊎ ((consecutive ≡ true) × (c.count ≡ 1) × Two (beyond D dec c))
        → let r = (cross D dec H c p consecutive now).0 in
          Standing (beyond D dec c) c.from r.last_date r.count r.phase
    cross-Standing c p consecutive now h l f_le b n =
        elim (Bool-cases (leb 2 (c.count + 1) && consecutive)) [
          | inl e ↦ rw e (elim n [ inl z ↦ ground arith | inr x ↦ x.2 ])
          | inr e ↦
              let one : c.count + 1 ≡ 1 = (elim n [ inl z ↦ omega arith | inr x ↦ ground arith ]) in
              elim (Bool-cases (is_none c.first_detected_at)) [
                | inl f ↦ rw (e, f) (inr (one, (p, h, sym l, b, rw l f_le)))
                | inr f ↦ rw (e, f) (inr (one, (p, h, sym l, b, rw l f_le)))
              ]
        ]

    return-Standing :
        (c : Case D) (p : Price) (now : ℕ)
        → let r = (return D dec H c p now).0 in
          Standing (beyond D dec c) c.from r.last_date r.count r.phase
    return-Standing c p now = elim (Bool-cases (ltb c.through p.date)) [
      | inl e ↦ rw e tt
      | inr e ↦ elim (Bool-cases (is_pending c.phase)) [
        | inl f ↦ rw (e, f) refl
        | inr f ↦ rw (e, f) refl
      ]
    ]

    discover-Standing :
        (c : Case D) (p : Price) (consecutive : Bool) (now : ℕ)
        → P p
        → c.last_date ≡ p.date
        → is_active c.phase ≡ true
        → is_confirmed c.phase ≡ false
        → ((c.count ≡ 0)
            ⊎ ((consecutive ≡ true)
                × (c.count ≡ 1)
                × (c.from ≤ p.date)
                × (beyond D dec c p.value ≡ true → Two (beyond D dec c))))
        → let r = (discover D dec H c p consecutive now).0 in
          Standing (beyond D dec c) c.from r.last_date r.count r.phase
    unfolding discover
    discover-Standing c p consecutive now h l act con n =
        let good : Case D × List Event → Type 0 =
          λ r. Standing (beyond D dec c) c.from r.0.last_date r.0.count r.0.phase in
        if-split good (ltb p.date c.from) _ _
          (λ a.
            zero-Standing (beyond D dec c) c.from c.last_date c.count c.phase act con
              (elim n [ inl z ↦ z | inr y ↦ ground arith ]))
          (λ a.
            if-split good
              (ltb c.through p.date
                && not
                    (is_pending c.phase && c.count == 1 && consecutive && p.date == c.through + 1))
              _ _ (λ x. expired-Standing (beyond D dec c) c.from c.last_date c.count c.phase con)
              (λ x.
                if-split good (beyond D dec c p.value) _ _
                  (λ b.
                    cross-Standing c p consecutive now h l (ltb→le p.date c.from a) b
                      (elim n [ inl z ↦ inl z | inr y ↦ inr (y.0, y.1, y.3 b) ]))
                  (λ b. return-Standing c p now)))

    confirmed-Two :
        (out : String → Bool) (from last n : ℕ) (k : Phase)
        → Standing out from last n k
        → is_confirmed k ≡ true
        → Two out × (k ≡ confirmed)
    confirmed-Two out from last n watching h e = cc
    confirmed-Two out from last n pending h e = cc
    confirmed-Two out from last n confirmed h e = (h, refl)
    confirmed-Two out from last n invalidated h e = cc
    confirmed-Two out from last n tracking_expired h e = cc
    confirmed-Two out from last n discovery_expired h e = cc
    confirmed-Two out from last n pending_expired h e = cc

    -- The count that the price of a day begins with.
    carried_count :
        (c : Case D) (p : Price) (consecutive : Bool)
        → (c.last_date + 1 == p.date) ≡ consecutive
        → P p
        → Stands c
        → is_active c.phase ≡ true
        → is_confirmed c.phase ≡ false
        → let n = if consecutive then c.count else 0 in
          (n ≡ 0)
          ⊎ ((consecutive ≡ true)
              × (n ≡ 1)
              × (c.from ≤ p.date)
              × (beyond D dec c p.value ≡ true → Two (beyond D dec c)))
    carried_count c p false e h s a b = inl refl
    carried_count c p true e h s a b =
        elim (counted (beyond D dec c) c.from c.last_date c.count c.phase s a b) [
          | inl z ↦ inl z
          | inr (one, (q, known, on, out, late)) ↦
              inr (refl, one, ground arith, λ x. (q, p, known, h, ground arith, out, x))
        ]

    observe-Standing :
        (c : Case D) (p : Price) (now : ℕ)
        → P p
        → Stands c
        → is_active c.phase ≡ true
        → let r = (observe D dec H c p now).0 in
          Standing (beyond D dec c) c.from r.last_date r.count r.phase
    unfolding observe
    observe-Standing c p now h s a =
        let next = noted D dec H c p (c.last_date + 1 == p.date) in
        if-split
          (λ (r : Case D × List Event).
            Standing (beyond D dec c) c.from r.0.last_date r.0.count r.0.phase)
          (is_confirmed c.phase) (track D dec H next p now)
          (discover D dec H next p (c.last_date + 1 == p.date) now)
          (λ e.
            let (two, k) = confirmed-Two (beyond D dec c) c.from c.last_date c.count c.phase s e in
            track-Standing next p now k two)
          (λ e.
            discover-Standing next p (c.last_date + 1 == p.date) now h refl a e
              (carried_count c p _ refl h s a e))

    -- The prices that a day brings are among those considered.
    abbrev pub Known : Option Price → Type 0
    Known none = Unit
    Known (some p) = P p

    missed-Standing :
        (out : String → Bool) (from last n : ℕ) (k : Phase) (b : Bool)
        → Standing out from last n k
        → Standing out from last (if is_pending k && b then 0 else n) k
    missed-Standing out from last n pending true h = inl refl
    missed-Standing out from last n pending false h = h
    missed-Standing out from last n watching b h = h
    missed-Standing out from last n confirmed b h = h
    missed-Standing out from last n invalidated b h = h
    missed-Standing out from last n tracking_expired b h = h
    missed-Standing out from last n discovery_expired b h = h
    missed-Standing out from last n pending_expired b h = h

    meet_price-Standing :
        (c : Case D) (p : Option Price) (expected now : ℕ)
        → Known p
        → Stands c
        → is_active c.phase ≡ true
        → let r = (meet_price D dec H c p expected now).0 in
          Standing (beyond D dec c) c.from r.last_date r.count r.phase
    meet_price-Standing c none expected now h s a =
        missed-Standing (beyond D dec c) c.from c.last_date c.count c.phase
          (leb (close_of expected + 6 * hour) now) s
    meet_price-Standing c (some p) expected now h s a =
        if-split
          (λ (r : Case D × List Event).
            Standing (beyond D dec c) c.from r.0.last_date r.0.count r.0.phase)
          (not (p.date == expected)
            || not (ltb c.frozen_at (close_of p.date))
            || leb p.date c.last_date)
          _ _ (λ e. s) (λ e. observe-Standing c p now h s a)

    pub advance_case-Standing :
        (c : Case D) (p : Option Price) (expected now : ℕ)
        → Known p
        → Stands c
        → let r = (advance_case D dec H c p expected now).0 in
          Standing (beyond D dec c) c.from r.last_date r.count r.phase
    unfolding advance_case
    advance_case-Standing c p expected now h s = elim (Bool-cases (is_active c.phase)) [
      | inr e ↦ rw e s
      | inl e ↦ elim (Bool-cases (overdue D dec c expected)) [
        | inl o ↦
            rw (e, o) (tracked-Standing (beyond D dec c) c.from c.last_date c.count _ _ c.phase s)
        | inr o ↦ rw (e, o) (meet_price-Standing c p expected now h s e)
      ]
    ]
