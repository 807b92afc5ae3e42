-- ===== src/Signals/Snapshot/Explain.antt =====
-- `explain` and `fundingWarning` (internal/datahub/multifactor.go, multifactor_context.go): the
-- direction that a snapshot speaks of, the state of each factor, and whether the direction's
-- assessment is supported. Headlines and texts are left out.
pub mod Support
use tidal_crypto_intelligenc.Base.{
  ℕ, ◌+◌, ◌≡◌, refl, Bool, true, false, not, ◌&&◌, ◌||◌, leb, if◌then◌else◌, if-split, Option, none,
  some, List, [], ◌∷◌, All, String, str_eq, is_none, is_some, map,
}
use tidal_crypto_intelligenc.Base.Integers.{ℤ, pos, negsuc, is_pos, is_negative}
use tidal_crypto_intelligenc.Study.Prices.{Floats}
use tidal_crypto_intelligenc.Signals.{signed, if_some}
use tidal_crypto_intelligenc.Signals.Snapshot.{
  FlowWindow, FlowAssessment, pattern, FlowSnapshot, is_toward, hundred, one,
}

-- The map `venues` or `high` has two of the three.
abbrev pub any_venue {ℓ} : {A : Type ℓ} → (A → Bool) → List A → Bool
any_venue p [] = false
any_venue p (x ∷ xs) = p x || any_venue p xs

module _ (F : Floats) where
  open F use {Float, nought, less, at_least, greater_of, of_int, hundredths, sub, mul}

  -- `rate` is the number of `RatePercent`.
  pub record FundingPoint : Type 0 where
    pub venue : String
    pub comparable : Bool
    pub p95 : Option Float
    pub p05 : Option Float
    pub rate : Float

  -- The parts that are read: the futures and the liquidations of an hour.
  pub record DerivativeContext : Type 0 where
    pub futures : FlowWindow F
    pub coin_1h : Option Float
    pub abs_p75 : Option Float
    pub funding : List FundingPoint
    pub long_known : Bool
    pub short_known : Bool

  abbrev pub is_usable : FundingPoint → Bool
  is_usable f = f.comparable && is_some f.p95 && is_some f.p05

  abbrev pub is_high : String → FundingPoint → Bool
  is_high side f =
      str_eq side "buy" && less nought f.rate && if_some f.p95 false (λ p. less p f.rate)
      || str_eq side "sell" && less f.rate nought && if_some f.p05 false (λ p. less f.rate p)

  abbrev pub venues : (FundingPoint → Bool) → List FundingPoint → ℕ
  venues p fs =
      one F (any_venue (λ f. is_usable f && p f && str_eq f.venue "Binance") fs)
      + one F (any_venue (λ f. is_usable f && p f && str_eq f.venue "OKX") fs)
      + one F (any_venue (λ f. is_usable f && p f && str_eq f.venue "Bybit") fs)

  -- `fundingWarning`: known, and crowded.
  unfoldable pub funding_warning : DerivativeContext → String → Bool × Bool
  funding_warning c side =
      (leb 2 (venues (λ f. true) c.funding), leb 2 (venues (is_high side) c.funding))

  -- The direction of the hour, where none is given.
  abbrev pub direction_of : String → Option ℤ → String
  direction_of side none = side
  direction_of side (some n) =
      if str_eq side ""
      then if is_pos n then "buy" else if is_negative n then "sell" else ""
      else side

  abbrev pub assessment_of : String → List (FlowAssessment F) → FlowAssessment F → FlowAssessment F
  assessment_of side [] a = a
  assessment_of side (v ∷ vs) a = assessment_of side vs (if str_eq v.direction side then v else a)

  abbrev pub no_assessment : FlowAssessment F
  no_assessment = record {
    direction = "";
    fast = false;
    sustained = false;
    large = false;
    supported = false;
    fast_checks = [];
    sustained_checks = [];
  }

  -- The futures say: known, the same way, the opposite way.
  abbrev pub perp : String → FlowWindow F → Bool × (Bool × Bool)
  perp side w =
      if_some w.net (false, (false, false))
        (λ n.
          if_some w.volume_ratio (false, (false, false))
            (λ ratio.
              if_some w.buy_share (false, (false, false))
                (λ share.
                  let dominant = greater_of share (sub (hundred F) share) in
                  let significant =
                    at_least dominant (of_int (pos 55)) && at_least ratio (hundredths 150) in
                  (
                    true,
                    (
                      significant && is_pos (signed side n),
                      significant && is_negative (signed side n),
                    ),
                  ))))

  abbrev pub sign_of : String → Float
  sign_of side = if str_eq side "sell" then of_int (negsuc 0) else of_int (pos 1)

  abbrev pub is_extended : String → Option Float → Bool
  is_extended side d = if_some d false (λ x. less (hundredths 150) (mul x (sign_of side)))

  abbrev pub is_conflict : String → Option Float → Bool
  is_conflict side r = if_some r false (λ x. at_least nought (mul x (sign_of side)))

  abbrev pub set_assessment :
      String → FlowAssessment F → List (FlowAssessment F) → List (FlowAssessment F)
  set_assessment side a [] = []
  set_assessment side a (v ∷ vs) =
      (if str_eq v.direction side then a else v) ∷ set_assessment side a vs

  abbrev pub unsupported : List (FlowAssessment F) → List (FlowAssessment F)
  unsupported [] = []
  unsupported (v ∷ vs) = record v { supported = false } ∷ unsupported vs

  abbrev pub missing : List (String × String) → List (String × String)
  missing [] = []
  missing ((f, s) ∷ es) = (f, "missing") ∷ missing es

  -- The states of the factors.
  abbrev pub spot_state : FlowSnapshot F → FlowAssessment F → String
  spot_state s a =
      if is_none s.windows.spot15.net || is_none s.windows.spot60.net || not s.baseline.valid
      then "missing"
      else if not (str_eq (pattern F a) "")
      then "support"
      else "neutral"

  abbrev pub futures_state : Bool × (Bool × Bool) → String
  futures_state (known, (same, opposite)) =
      if not known
      then "missing"
      else if opposite
      then "conflict"
      else if same
      then "support"
      else "neutral"

  abbrev pub price_state : FlowSnapshot F → Bool → Bool → String
  price_state s extended conflict =
      if is_none s.price.return_1h
      then "missing"
      else if extended || conflict
      then "conflict"
      else "support"

  -- `a.Supported`, and the assessments with it.
  abbrev pub support_of : FlowSnapshot F → DerivativeContext → String → FlowAssessment F → Bool
  support_of s c side a =
      a.sustained
      && a.large
      && is_toward F side s.windows.spot240
      && (perp side c.futures).1.0
      && (is_some c.coin_1h && is_some c.abs_p75)
      && (funding_warning c side).0
      && not (funding_warning c side).1
      && not (is_extended side s.price.displacement_atr)
      && not (is_conflict side s.price.return_1h)
      && is_some s.price.displacement_atr

  abbrev pub assessed :
      FlowSnapshot F → DerivativeContext → String → FlowAssessment F → List (FlowAssessment F)
  assessed s c side a =
      set_assessment side (record a { supported = support_of s c side a }) s.assessments

  -- `explain`.
  unfoldable pub explain : FlowSnapshot F → DerivativeContext → String → FlowSnapshot F
  unfolding pattern funding_warning
  explain s c given =
      let side = direction_of given s.windows.spot60.net in
      let a = assessment_of side s.assessments no_assessment in
      let futures = perp side c.futures in
      let oi_known = is_some c.coin_1h && is_some c.abs_p75 in
      let funding = funding_warning c side in
      let extended = is_extended side s.price.displacement_atr in
      let conflict = is_conflict side s.price.return_1h in
      let assessments = assessed s c side a in
      let evidence =
        ("spot", spot_state s a)
        ∷ ("futures", futures_state futures)
        ∷ ("oi", if oi_known then "neutral" else "missing")
        ∷ (
          "funding",
          if not funding.0 then "missing" else if funding.1 then "conflict" else "neutral",
        )
        ∷ ("liquidations", if c.long_known && c.short_known then "neutral" else "missing")
        ∷ ("price", price_state s extended conflict)
        ∷ [] in
      record s {
        direction = side;
        assessments = if s.fresh then assessments else unsupported assessments;
        evidence = if s.fresh then evidence else missing evidence;
      }
