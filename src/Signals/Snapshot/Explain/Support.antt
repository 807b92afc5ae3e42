-- ===== src/Signals/Snapshot/Explain/Support.antt =====
-- What the support of a direction rests on.
use tidal_crypto_intelligenc.Base.{
  ◌≡◌, ◌⊎◌, refl, Bool, true, false, not, ◌&&◌, if-split, if◌then◌else◌, ℕ, List, [], ◌∷◌, All,
  String, str_eq, is_some, Bool-cases, inl, inr, arith,
}
use mathlib.Core.Path.{subst}
use text.Mathlib.TextEquality.{eq_iff}
use tidal_crypto_intelligenc.Study.Prices.{Floats, Candles}
use tidal_crypto_intelligenc.Signals.{Bars}
use tidal_crypto_intelligenc.Signals.Baseline.{SignalBaseline}
use tidal_crypto_intelligenc.Signals.Snapshot.{
  FlowAssessment, FlowSnapshot, is_toward, check, net_toward, literal, core_assessment,
  build_flow_snapshot,
}
use tidal_crypto_intelligenc.Signals.Snapshot.Explain.{
  DerivativeContext, funding_warning, direction_of, perp, is_extended, is_conflict, set_assessment,
  unsupported, assessment_of, no_assessment, support_of, assessed, explain,
}

module _ (F : Floats) where
  -- The hour's net flow towards the side is 50 million dollars or more.
  abbrev pub HourToward : String → FlowSnapshot F → Type 0
  HourToward side s =
      check F (net_toward F side s.windows.spot60) (literal F 5000000000) true ≡ true

  -- What an assessment of a snapshot is before it is explained.
  abbrev IsCore : FlowSnapshot F → FlowAssessment F → Type 0
  IsCore s v = (v.supported ≡ false) × (v.large ≡ true → HourToward v.direction s)

  -- The assessment is the one of the direction of the snapshot, and every factor speaks for that
  -- direction, or does not speak against it.
  pub record IsSupported (s : FlowSnapshot F) (c : DerivativeContext F) (side : String)
      (a : FlowAssessment F) : Type 0 where
    pub fresh : s.fresh ≡ true
    pub own : str_eq a.direction side ≡ true
    pub hour : HourToward side s
    pub sustained : a.sustained ≡ true
    pub large : a.large ≡ true
    pub four_hours : is_toward F side s.windows.spot240 ≡ true
    pub futures : (perp F side c.futures).1.0 ≡ true
    pub open_interest : (is_some c.coin_1h && is_some c.abs_p75) ≡ true
    pub funding : (funding_warning F c side).0 ≡ true
    pub uncrowded : (funding_warning F c side).1 ≡ false
    pub unextended : is_extended F side s.price.displacement_atr ≡ false
    pub responding : is_conflict F side s.price.return_1h ≡ false
    pub displaced : is_some s.price.displacement_atr ≡ true

  abbrev pub Explained : FlowSnapshot F → DerivativeContext F → String → FlowAssessment F → Type 0
  Explained s c side a = (a.supported ≡ false) ⊎ IsSupported s c side a

  unsupported_all :
      (s : FlowSnapshot F) (c : DerivativeContext F) (side : String) (vs : List (FlowAssessment F))
      → All (Explained s c side) (unsupported F vs)
  unsupported_all s c side [] = tt
  unsupported_all s c side (v ∷ vs) = (inl refl, unsupported_all s c side vs)

  set-Explained :
      (s : FlowSnapshot F) (c : DerivativeContext F) (side : String) (a : FlowAssessment F)
      (vs : List (FlowAssessment F))
      → Explained s c side a
      → All (λ v. v.supported ≡ false) vs
      → All (Explained s c side) (set_assessment F side a vs)
  set-Explained s c side a [] h k = tt
  set-Explained s c side a (v ∷ vs) h k = (
    if-split (Explained s c side) (str_eq v.direction side) a v (λ e. h) (λ e. inl k.0),
    set-Explained s c side a vs h k.1,
  )

  ten :
      (a b c d e f g h i j : Bool)
      → (a && b && c && d && e && f && not g && not h && not i && j) ≡ true
      → ((a ≡ true) × (b ≡ true) × (c ≡ true) × (d ≡ true) × (e ≡ true))
        × ((f ≡ true) × (g ≡ false) × (h ≡ false) × (i ≡ false) × (j ≡ true))
  ten a b c d e f g h i j k = ground arith

  -- An assessment of the side, or one that is not sustained.
  abbrev Chosen : FlowSnapshot F → String → FlowAssessment F → Type 0
  Chosen s side a =
      ((str_eq a.direction side ≡ true) × (a.large ≡ true → HourToward side s))
      ⊎ (a.sustained ≡ false)

  of_side :
      (s : FlowSnapshot F) (side : String) (v : FlowAssessment F)
      → IsCore s v
      → str_eq v.direction side ≡ true
      → Chosen s side v
  of_side s side v k e =
      inl (e, λ l. subst (λ d. HourToward d s) ((eq_iff v.direction side).0 e) (k.1 l))

  assessment_of-Chosen :
      (s : FlowSnapshot F) (side : String) (vs : List (FlowAssessment F)) (a : FlowAssessment F)
      → All (IsCore s) vs
      → Chosen s side a
      → Chosen s side (assessment_of F side vs a)
  assessment_of-Chosen s side [] a k h = h
  assessment_of-Chosen s side (v ∷ vs) a k h =
      assessment_of-Chosen s side vs (if str_eq v.direction side then v else a) k.1 (
        if-split (Chosen s side) (str_eq v.direction side) v a (λ e. of_side s side v k.0 e)
          (λ e. h))

  own_of :
      (s : FlowSnapshot F) (side : String) (a : FlowAssessment F)
      → Chosen s side a
      → a.sustained ≡ true
      → str_eq a.direction side ≡ true
  own_of s side a (inl d) h = d.0
  own_of s side a (inr n) h = cc

  hour_of :
      (s : FlowSnapshot F) (side : String) (a : FlowAssessment F)
      → Chosen s side a
      → a.sustained ≡ true
      → a.large ≡ true
      → HourToward side s
  hour_of s side a (inl d) h l = d.1 l
  hour_of s side a (inr n) h l = cc

  support_sound :
      (s : FlowSnapshot F) (c : DerivativeContext F) (side : String) (a : FlowAssessment F)
      → s.fresh ≡ true
      → Chosen s side a
      → Explained s c side (record a { supported = support_of F s c side a })
  support_sound s c side a e g = elim (Bool-cases (support_of F s c side a)) [
    | inr f ↦ inl f
    | inl f ↦
        let (x, y) =
          ten a.sustained a.large (is_toward F side s.windows.spot240) (perp F side c.futures).1.0
            (is_some c.coin_1h && is_some c.abs_p75) (funding_warning F c side).0
            (funding_warning F c side).1 (is_extended F side s.price.displacement_atr)
            (is_conflict F side s.price.return_1h) (is_some s.price.displacement_atr) f in
        inr (record {
          fresh = e;
          own = own_of s side a g x.0;
          hour = hour_of s side a g x.0 x.1;
          sustained = x.0;
          large = x.1;
          four_hours = x.2;
          futures = x.3;
          open_interest = x.4;
          funding = y.0;
          uncrowded = y.1;
          unextended = y.2;
          responding = y.3;
          displaced = y.4;
        })
  ]

  IsCore-plain :
      (s : FlowSnapshot F) (vs : List (FlowAssessment F))
      → All (IsCore s) vs
      → All (λ v. v.supported ≡ false) vs
  IsCore-plain s [] h = tt
  IsCore-plain s (v ∷ vs) h = (h.0.0, IsCore-plain s vs h.1)

  explain_core :
      (s : FlowSnapshot F) (c : DerivativeContext F) (given : String)
      → All (IsCore s) s.assessments
      → All
          (Explained s c (direction_of F given s.windows.spot60.net))
          (explain F s c given).assessments
  unfolding explain
  explain_core s c given h =
      let side = direction_of F given s.windows.spot60.net in
      let a = assessment_of F side s.assessments (no_assessment F) in
      let done = record a { supported = support_of F s c side a } in
      let chosen = assessment_of-Chosen s side s.assessments (no_assessment F) h (inr refl) in
      if-split (λ (l : List (FlowAssessment F)). All (Explained s c side) l) s.fresh
        (assessed F s c side a) (unsupported F (assessed F s c side a))
        (λ e.
          set-Explained s c side done s.assessments (support_sound s c side a e chosen)
            (IsCore-plain s s.assessments h))
        (λ e. unsupported_all s c side (assessed F s c side a))

  core_assessment-IsCore :
      (b : SignalBaseline F) (s : FlowSnapshot F) (through : ℕ) (side : String) (bars : Bars)
      → IsCore s (core_assessment F b s.windows through side bars)
  unfolding core_assessment
  core_assessment-IsCore b s through side bars = (refl, λ l. ground arith)

  build-IsCore :
      (bars : Bars) (candles : Candles F) (end now : ℕ) (b : SignalBaseline F) (fresh : Bool)
      → let s = build_flow_snapshot F bars candles end now b fresh in All (IsCore s) s.assessments
  unfolding build_flow_snapshot
  build-IsCore bars candles end now b fresh =
      let s = build_flow_snapshot F bars candles end now b fresh in
      (core_assessment-IsCore b s end "buy" bars, (core_assessment-IsCore b s end "sell" bars, tt))

  -- Of a snapshot as it is built, `explain` marks an assessment as supported only where the data are
  -- fresh, the assessment is of the direction that is explained, sustained and large, the hour's net
  -- flow that way is 50 million dollars or more, the four hours' flow and the futures go that way,
  -- the open interest and the funding are known, the funding is not crowded, and the price has moved,
  -- neither against that direction nor too far.
  pub explain-Explained :
      (bars : Bars) (candles : Candles F) (end now : ℕ) (b : SignalBaseline F) (fresh : Bool)
      (c : DerivativeContext F) (given : String)
      → let s = build_flow_snapshot F bars candles end now b fresh in
        All
          (Explained s c (direction_of F given s.windows.spot60.net))
          (explain F s c given).assessments
  explain-Explained bars candles end now b fresh c given =
      explain_core (build_flow_snapshot F bars candles end now b fresh) c given
        (build-IsCore bars candles end now b fresh)
