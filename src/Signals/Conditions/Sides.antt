-- ===== src/Signals/Conditions/Sides.antt =====
-- The experiment's conditions never hold for both directions.
use tidal_crypto_intelligenc.Base.{
  ℕ, ◌-◌, ◌*◌, ◌≡◌, ◌⊎◌, refl, Bool, true, false, not, ◌&&◌, ◌||◌, if◌then◌else◌, String, str_eq,
  hour, inl, inr, arith,
}
use tidal_crypto_intelligenc.Base.Integers.{ℤ, pos, ◌-ℤ◌, is_pos}
use tidal_crypto_intelligenc.Study.Prices.{Floats}
use tidal_crypto_intelligenc.Signals.{Bars, net, signed, sum_bars}
use tidal_crypto_intelligenc.Signals.Baseline.{SignalBaseline}
use tidal_crypto_intelligenc.Signals.Conditions.{
  bar_toward, toward, reaches, share_of, volume, is_burst, is_sustained, signal_condition,
}

-- Nothing is both above 0 and, with its sign turned, above 0.
opposite : (n : ℤ) → is_pos n ≡ true → is_pos (pos 0 -ℤ n) ≡ false
opposite n h = ground arith

fourth : (a b c d e f g : Bool) → (a && b && c && d && e && f && g) ≡ true → f ≡ true
fourth a b c d e f g h = ground arith

second : (ok up b c d e f : Bool) → (ok && up && b && c && d && e && f) ≡ true → up ≡ true
second ok up b c d e f h = ground arith

abbrev chosen : Bool → Bool → Bool → String × Bool
chosen gap burst sustained =
    if gap
    then ("", false)
    else if burst
    then ("burst", true)
    else if sustained
    then ("sustained", true)
    else ("", true)

shape :
    (gap burst sustained up : Bool)
    → (burst ≡ true → up ≡ true)
    → (sustained ≡ true → up ≡ true)
    → (str_eq (chosen gap burst sustained).0 "" ≡ true) ⊎ (up ≡ true)
shape true b s up f g = inl refl
shape false true s up f g = inr (f refl)
shape false false true up f g = inr (g refl)
shape false false false up f g = inl refl

module _ (F : Floats) where
  burst_up :
      (bars : Bars) (end : ℕ) (b : SignalBaseline F) (side : String)
      → is_burst F bars end b side ≡ true
      → is_pos (signed side (net (sum_bars bars end 12).0)) ≡ true
  burst_up bars end b side h =
      let v15 = (sum_bars bars end 3).0 in
      fourth (bar_toward bars end side 1) (bar_toward bars end side 2) (bar_toward bars end side 3)
        (reaches F side (net v15) b.p95 b.p05) (F.at_least (share_of F side v15) (F.hundredths 55))
        (is_pos (signed side (net (sum_bars bars end 12).0))) (F.at_least (volume F v15) b.median15)
        h

  sustained_up :
      (bars : Bars) (end : ℕ) (b : SignalBaseline F) (side : String)
      → is_sustained F bars end b side ≡ true
      → is_pos (signed side (net (sum_bars bars end 12).0)) ≡ true
  sustained_up bars end b side h =
      let v60 = sum_bars bars end 12 in
      second v60.1 (is_pos (signed side (net v60.0))) (toward side (sum_bars bars (end - hour) 12))
        (toward side (sum_bars bars (end - 2 * hour) 12)) (reaches F side (net v60.0) b.p90 b.p10)
        (F.at_least (share_of F side (sum_bars bars end 36).0) (F.hundredths 55))
        (F.at_least (volume F v60.0) b.median60) h

  -- A pattern comes with an hour's net flow in its direction.
  condition_hour :
      (bars : Bars) (end : ℕ) (b : SignalBaseline F) (side : String)
      → (str_eq (signal_condition F bars end b side).0 "" ≡ true)
        ⊎ (is_pos (signed side (net (sum_bars bars end 12).0)) ≡ true)
  unfolding signal_condition
  condition_hour bars end b side =
      shape
        (not b.valid
          || not ((sum_bars bars end 3).1 && (sum_bars bars end 12).1 && (sum_bars bars end 36).1))
        (is_burst F bars end b side) (is_sustained F bars end b side)
        (is_pos (signed side (net (sum_bars bars end 12).0))) (burst_up bars end b side)
        (sustained_up bars end b side)

  -- Whatever the bars and the baseline: where buying has a pattern, selling has none.
  pub signal_condition_one_side :
      (bars : Bars) (end : ℕ) (b : SignalBaseline F)
      → str_eq (signal_condition F bars end b "buy").0 "" ≡ false
      → str_eq (signal_condition F bars end b "sell").0 "" ≡ true
  signal_condition_one_side bars end b h = elim (condition_hour bars end b "buy") [
    | inl e ↦ let n = rw e at h in cc
    | inr up ↦ elim (condition_hour bars end b "sell") [
      | inl e ↦ e
      | inr down ↦ let n = opposite (net (sum_bars bars end 12).0) up in cc
    ]
  ]
