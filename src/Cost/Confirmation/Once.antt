-- ===== src/Cost/Confirmation/Once.antt =====
-- A case is confirmed once.
use tidal_crypto_intelligenc.Base.{
  ℕ, ◌+◌, ◌≤◌, ◌≡◌, refl, Bool, true, false, not, ◌&&◌, ◌||◌, leb, ltb, ◌==◌, Option, none, some,
  List, [], ◌∷◌, String, str_eq, arith, Bool-cases, if-split, inl, inr, count, count-append,
  is_none,
}
use tidal_crypto_intelligenc.Paper.Decimal.{DecimalOps}
use tidal_crypto_intelligenc.Cost.{
  Price, Phase, watching, pending, confirmed, invalidated, discovery_expired, pending_expired,
  tracking_expired, Event, Digests, close_of, Case,
}
use tidal_crypto_intelligenc.Cost.Advance.{
  is_pending, is_confirmed, is_active, beyond, overdue, expiry_of, track, cross, return, discover,
  noted, observe, meet_price, advance_case, end_case, or_missing,
}
use tidal_crypto_intelligenc.Cost.Confirmation.Runs.{Day, follow}

abbrev pub confirms : Event → Bool
confirms e = str_eq e.kind "confirmed"

-- How many confirmations a case may still give.
abbrev pub chances : Phase → ℕ
chances watching = 1
chances pending = 1
chances _ = 0

chances_most : (k : Phase) → chances k ≤ 1
chances_most k = ground arith

module _ (D : DecimalOps) (dec : String → D.Decimal) (H : Digests) where
  -- What a step gives and leaves is within what there was.
  abbrev Within : ℕ → Case D × List Event → Type 0
  Within n r = count confirms r.1 + chances r.0.phase ≤ n

  chances-discovery : (k : Phase) → is_active k ≡ true → is_confirmed k ≡ false → chances k ≡ 1
  chances-discovery watching a b = refl
  chances-discovery pending a b = refl
  chances-discovery confirmed a b = cc
  chances-discovery invalidated a b = cc
  chances-discovery discovery_expired a b = cc
  chances-discovery pending_expired a b = cc
  chances-discovery tracking_expired a b = cc

  end-Within :
      (c d : Case D) (k : Phase) (p : Price) (now n : ℕ)
      → Within n (end_case D dec H d (expiry_of D dec k) p now)
  end-Within c d watching p now n = omega arith
  end-Within c d pending p now n = omega arith
  end-Within c d confirmed p now n = omega arith
  end-Within c d invalidated p now n = omega arith
  end-Within c d discovery_expired p now n = omega arith
  end-Within c d pending_expired p now n = omega arith
  end-Within c d tracking_expired p now n = omega arith

  track-Within :
      (c : Case D) (p : Price) (now : ℕ) → Within (chances c.phase) (track D dec H c p now)
  unfolding track
  track-Within c p now =
      if-split (Within (chances c.phase)) (not (c.track_through == 0) && ltb c.track_through p.date)
        _ _ (λ e. omega arith)
        (λ e.
          if-split (Within (chances c.phase)) (beyond D dec c p.value) _ _ (λ b. omega arith)
            (λ b. omega arith))

  cross-Within :
      (c : Case D) (p : Price) (consecutive : Bool) (now : ℕ)
      → Within 1 (cross D dec H c p consecutive now)
  cross-Within c p consecutive now =
      if-split (Within 1) (leb 2 (c.count + 1) && consecutive) _ _ (λ e. omega arith)
        (λ e. elim (Bool-cases (is_none c.first_detected_at)) [
          | inl f ↦ rw f (omega arith)
          | inr f ↦ rw f (omega arith)
        ])

  return-Within : (c : Case D) (p : Price) (now : ℕ) → Within 1 (return D dec H c p now)
  return-Within c p now =
      if-split (Within 1) (ltb c.through p.date) _ _ (λ e. omega arith)
        (λ e. if-split (Within 1) (is_pending c.phase) _ _ (λ f. omega arith) (λ f. omega arith))

  discover-Within :
      (c : Case D) (p : Price) (consecutive : Bool) (now : ℕ)
      → chances c.phase ≡ 1
      → Within 1 (discover D dec H c p consecutive now)
  unfolding discover
  discover-Within c p consecutive now h =
      if-split (Within 1) (ltb p.date c.from) _ _ (λ e. omega arith)
        (λ e.
          if-split (Within 1)
            (ltb c.through p.date
              && not (is_pending c.phase && c.count == 1 && consecutive && p.date == c.through + 1))
            _ _ (λ f. end-Within c c c.phase p now 1)
            (λ f.
              if-split (Within 1) (beyond D dec c p.value) _ _
                (λ b. cross-Within c p consecutive now) (λ b. return-Within c p now)))

  observe-Within :
      (c : Case D) (p : Price) (now : ℕ)
      → is_active c.phase ≡ true
      → Within (chances c.phase) (observe D dec H c p now)
  unfolding observe
  observe-Within c p now a =
      let next = noted D dec H c p (c.last_date + 1 == p.date) in
      if-split (Within (chances c.phase)) (is_confirmed c.phase) (track D dec H next p now)
        (discover D dec H next p (c.last_date + 1 == p.date) now) (λ e. track-Within next p now)
        (λ e.
          let one = chances-discovery c.phase a e in
          let found = discover-Within next p (c.last_date + 1 == p.date) now one in omega arith)

  meet_price-Within :
      (c : Case D) (p : Option Price) (expected now : ℕ)
      → is_active c.phase ≡ true
      → Within (chances c.phase) (meet_price D dec H c p expected now)
  meet_price-Within c none expected now a = omega arith
  meet_price-Within c (some p) expected now a =
      if-split (Within (chances c.phase))
        (not (p.date == expected)
          || not (ltb c.frozen_at (close_of p.date))
          || leb p.date c.last_date)
        _ _ (λ e. omega arith) (λ e. observe-Within c p now a)

  advance_case-Within :
      (c : Case D) (p : Option Price) (expected now : ℕ)
      → Within (chances c.phase) (advance_case D dec H c p expected now)
  unfolding advance_case
  advance_case-Within c p expected now = elim (Bool-cases (is_active c.phase)) [
    | inr e ↦ rw e (omega arith)
    | inl e ↦ elim (Bool-cases (overdue D dec c expected)) [
      | inl o ↦
          rw (e, o) (end-Within c c c.phase (or_missing D dec H expected p) now (chances c.phase))
      | inr o ↦ rw (e, o) (meet_price-Within c p expected now e)
    ]
  ]

  follow-Within : (c : Case D) (ds : List Day) → Within (chances c.phase) (follow D dec H c ds)
  unfolding follow
  follow-Within c [] = omega arith
  follow-Within c (d ∷ ds) =
      let r = advance_case D dec H c d.price d.expected d.now in
      let step = advance_case-Within c d.price d.expected d.now in
      let rest = follow-Within r.0 ds in
      rw (count-append confirms r.1 (follow D dec H r.0 ds).1) (omega arith)

  -- Over any number of days a case gives at most one event of the kind "confirmed", and none if it
  -- was neither watched nor pending, nor if it still is one of these at the end (`chances` is 1 for
  -- these two phases, and 0 for the others).
  pub follow-confirms_once :
      (c : Case D) (ds : List Day)
      → let r = follow D dec H c ds in
        (count confirms r.1 ≤ 1) × (count confirms r.1 + chances r.0.phase ≤ chances c.phase)
  follow-confirms_once c ds =
      let within = follow-Within c ds in let most = chances_most c.phase in (omega arith, within)
