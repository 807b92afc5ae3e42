-- ===== src/Cost/Distinct.antt =====
-- No two active cases are the same, the legacy ones left aside.
use tidal_crypto_intelligenc.Base.{
  ℕ, ◌+◌, ◌-◌, ◌≡◌, refl, inl, inr, ◌∙◌, sym, Bool, true, false, not, ◌&&◌, ◌||◌, leb, ltb, ◌==◌,
  if◌then◌else◌, Option, none, some, List, [], ◌∷◌, ◌++◌, String, str_eq, arith, Bool-cases,
  if-split, All, All-append,
}
use mathlib.Core.Path.{subst}
use tidal_crypto_intelligenc.Paper.Decimal.{DecimalOps}
use tidal_crypto_intelligenc.Cost.{Zone, Price, Event, Digests, Case, Metrics, date_of}
use tidal_crypto_intelligenc.Cost.Advance.{is_active, advance_case}
use tidal_crypto_intelligenc.Cost.Boundary.{Frozen, advance_case-Frozen}
use tidal_crypto_intelligenc.Cost.Cases.{
  same_case, rivals, duplicate, add_case, case_of, over_buffers, over_directions, over_zones, Cycle,
  buffers, directions, price_channel,
}
use tidal_crypto_intelligenc.Cost.Structure.{
  Frame, State, Inputs, advance_all, advance, open_cycle, open_channel, judge_structure, started,
  priced, cycle_of, weigh, compressed, onchain_rules,
}

module _ (D : DecimalOps) (dec : String → D.Decimal) where
  -- Both are active, neither is a legacy case, and they are of the same boundary.
  abbrev pub clash : Case D → Case D → Bool
  clash c d =
      is_active c.phase && not c.legacy && is_active d.phase && not d.legacy && same_case D dec c d

  abbrev pub Apart : List (Case D) → Type 0
  Apart [] = Unit
  Apart (c ∷ cs) = All (λ d. clash c d ≡ false) cs × Apart cs

  rivals-clash : (c d : Case D) → rivals D dec c d ≡ false → clash c d ≡ false
  rivals-clash c d h = ground arith

  Apart-append :
      (d : Case D) (cs : List (Case D))
      → duplicate D dec d cs ≡ false
      → Apart cs
      → Apart (cs ++ d ∷ [])
  unfolding duplicate
  Apart-append d [] h a = (tt, tt)
  Apart-append d (c ∷ cs) h a = elim (Bool-cases (rivals D dec c d)) [
    | inl e ↦ cc (rw e at h)
    | inr e ↦ (
      All-append (λ x. clash c x ≡ false) cs _ a.0 (rivals-clash c d e, tt),
      Apart-append d cs (rw e at h) a.1,
    )
  ]

  add_case-Apart : (d : Case D) (cs : List (Case D)) → Apart cs → Apart (add_case D dec d cs)
  unfolding add_case
  add_case-Apart d cs a = elim (Bool-cases (duplicate D dec d cs)) [
    | inl e ↦ rw e a
    | inr e ↦ rw e (Apart-append d cs e a)
  ]

  module _ (H : Digests) where
    over_buffers-Apart :
        (y : Cycle) (z : Zone) (direction : String) (bs : List String) (cs : List (Case D))
        → Apart cs
        → Apart (over_buffers D dec H y z direction bs cs)
    unfolding over_buffers
    over_buffers-Apart y z direction [] cs a = a
    over_buffers-Apart y z direction (b ∷ bs) cs a =
        over_buffers-Apart y z direction bs _
          (add_case-Apart (case_of D dec H y z direction b) cs a)

    over_directions-Apart :
        (y : Cycle) (z : Zone) (ds : List String) (cs : List (Case D))
        → Apart cs
        → Apart (over_directions D dec H y z ds cs)
    unfolding over_directions
    over_directions-Apart y z [] cs a = a
    over_directions-Apart y z (d ∷ ds) cs a =
        over_directions-Apart y z ds _ (over_buffers-Apart y z d (buffers y.group) cs a)

    over_zones-Apart :
        (y : Cycle) (zs : List Zone) (cs : List (Case D))
        → Apart cs
        → Apart (over_zones D dec H y zs cs)
    unfolding over_zones
    over_zones-Apart y [] cs a = a
    over_zones-Apart y (z ∷ zs) cs a =
        over_zones-Apart y zs _ (over_directions-Apart y z (directions z) cs a)

    -- A case that has ended stays ended.
    active_before :
        (c : Case D) (p : Option Price) (expected now : ℕ)
        → is_active (advance_case D dec H c p expected now).0.phase ≡ true
        → is_active c.phase ≡ true
    unfolding advance_case
    active_before c p expected now h = elim (Bool-cases (is_active c.phase)) [
      | inl e ↦ e
      | inr e ↦ rw e at h
    ]

    clash-before :
        (c d c' d' : Case D)
        → Frozen D dec H c c'
        → Frozen D dec H d d'
        → (is_active c'.phase ≡ true → is_active c.phase ≡ true)
        → (is_active d'.phase ≡ true → is_active d.phase ≡ true)
        → clash c d ≡ false
        → clash c' d' ≡ false
    clash-before c d c' d' f g a b h = elim (Bool-cases (is_active c'.phase)) [
      | inr e ↦ rw e refl
      | inl e ↦ elim (Bool-cases (is_active d'.phase)) [
        | inr e' ↦ rw (e, e') (ground arith)
        | inl e' ↦
            rw
              (
                e, e', f.legacy, g.legacy, f.group, g.group, f.method, g.method, f.direction,
                g.direction, f.buffer, g.buffer, f.zone, g.zone,
              )
              (rw (a e, b e') at h)
      ]
    ]

    advance_all-clear :
        (c : Case D) (cs : List (Case D)) (p : Option Price) (day now : ℕ)
        → All (λ d. clash c d ≡ false) cs
        → All
            (λ d. clash (advance_case D dec H c p day now).0 d ≡ false)
            (advance_all D dec H cs p day now).0
    unfolding advance_all
    advance_all-clear c [] p day now h = tt
    advance_all-clear c (d ∷ ds) p day now h = (
      clash-before c d _ _ (advance_case-Frozen D dec H c p day now)
          (advance_case-Frozen D dec H d p day now) (active_before c p day now)
          (active_before d p day now) h.0,
      advance_all-clear c ds p day now h.1,
    )

    advance_all-Apart :
        (cs : List (Case D)) (p : Option Price) (day now : ℕ)
        → Apart cs
        → Apart (advance_all D dec H cs p day now).0
    unfolding advance_all
    advance_all-Apart [] p day now a = tt
    advance_all-Apart (c ∷ cs) p day now a =
        (advance_all-clear c cs p day now a.0, advance_all-Apart cs p day now a.1)

    open_cycle-Apart :
        (i : Inputs D) (day : ℕ) (f : Option Frame) (m : Option (Metrics D)) (s : State D)
        → Apart s.cases
        → Apart (open_cycle D dec H i day f m s).0.cases
    open_cycle-Apart i day none m s a = a
    open_cycle-Apart i day (some f) none s a = a
    open_cycle-Apart i day (some f) (some m) s a =
        if-split (λ (r : State D × List Event). Apart r.0.cases)
          (i.structure && (s.through == 0 || ltb s.through day)) _ _
          (λ e.
            over_zones-Apart (cycle_of D dec H "onchain" f.method f.revision i.now) m.zones s.cases
              a)
          (λ e. a)

    open_channel-Apart :
        (i : Inputs D) (day : ℕ) (p : Option Price) (s : State D)
        → Apart s.cases
        → Apart (open_channel D dec H i day p s).cases
    open_channel-Apart i day none s a = a
    open_channel-Apart i day (some p) s a =
        if-split (λ (r : State D). Apart r.cases)
          (s.baseline_through == 0 || ltb s.baseline_through day) _ _
          (λ e. opened (price_channel D dec day i.prices)) (λ e. a)
      where
        opened :
            (zones : List Zone)
            → Apart (
                State.cases (elim zones [
                  | [] ↦ s
                  | _ ∷ _ ↦ record s {
                    baseline_through = date_of i.now + 6;
                    cases =
                        over_zones D dec H
                          (cycle_of D dec H "price_only" "20-completed-daily-close-channel"
                            p.revision i.now)
                          (price_channel D dec day i.prices)
                          s.cases;
                  }
                ]))
        opened [] = a
        opened (z ∷ zs) = over_zones-Apart _ _ s.cases a

    cases-weigh :
        (i : Inputs D) (day : ℕ) (f : Frame) (first consecutive : Bool) (o : Option Bool)
        (s : State D)
        → (weigh D dec H i day f first consecutive o s).0.cases ≡ s.cases
    cases-weigh i day f first consecutive none s = refl
    cases-weigh i day f first consecutive (some false) s = refl
    cases-weigh i day f true consecutive (some true) s = refl
    cases-weigh i day f false consecutive (some true) s =
        if-split (λ (r : State D × List Event). r.0.cases ≡ s.cases)
          (leb 2 (s.meet + 1) && consecutive && not s.compression) _ _ (λ e. refl) (λ e. refl)

    cases-priced :
        (p : Option Price) (day : ℕ) (s : State D) → (priced D dec H p day s).cases ≡ s.cases
    cases-priced none day s = refl
    cases-priced (some p) day s = refl

    cases-judge_structure :
        (i : Inputs D) (day : ℕ) (first : Bool) (f : Option Frame) (m : Option (Metrics D))
        (s : State D)
        → (judge_structure D dec H i day first f m s).0.cases ≡ s.cases
    unfolding judge_structure
    cases-judge_structure i day first none m s = ground arith
    cases-judge_structure i day first (some f) none s = ground arith
    cases-judge_structure i day first (some f) (some m) s =
        let consecutive = s.structure_last_date + 1 == day in
        let reset : State D = (if consecutive then s else record s { meet = 0; clear = 0 }) in
        if-split (λ (r : State D × List Event). r.0.cases ≡ s.cases)
          (i.structure && f.date == day && not (s.structure_last_date == day)) _ _
          (λ e.
            cases-weigh i day f first consecutive (compressed D m) reset
            ∙ if-split (λ (r : State D). r.cases ≡ s.cases) consecutive s _ (λ b. refl) (λ b. refl))
          (λ e. ground arith)

    -- After an evaluation, no two active cases that are not legacy ones stand for the same boundary of
    -- the same group, method, direction, buffer and zone, if none did before. Of the active legacy
    -- cases, which the evaluation's own test passes over, nothing is said.
    pub advance-Apart :
        (i : Inputs D) (s : State D) → Apart s.cases → Apart (advance D dec H i s).0.cases
    unfolding advance
    advance-Apart i s a =
        let day = date_of i.now - 1 in
        let begun = started D i.now s in
        let kept : Apart begun.cases =
          (if-split (λ (r : State D). Apart r.cases) (str_eq s.rules onchain_rules) _ _ (λ e. a)
            (λ e. a)) in
        let moved = advance_all D dec H begun.cases i.price day i.now in
        let cased = open_cycle D dec H i day i.frame i.metrics (record begun { cases = moved.0 }) in
        let channel = open_channel D dec H i day i.price cased.0 in
        let judged = judge_structure D dec H i day (begun.through == 0) i.frame i.metrics channel in
        subst Apart
          (sym (
            cases-priced i.price day judged.0
            ∙ cases-judge_structure i day (begun.through == 0) i.frame i.metrics channel))
          (open_channel-Apart i day i.price cased.0 (
            open_cycle-Apart i day i.frame i.metrics (record begun { cases = moved.0 })
              (advance_all-Apart begun.cases i.price day i.now kept)))
