-- ===== src/Signals/Baseline/Windows.antt =====
-- The samples of a window of bars, as those that end at consecutive times; what a bar adds to the
-- count and to the dates.
use mathlib.Core.List.{append_assoc}
use tidal_crypto_intelligenc.Base.{
  ℕ, zero, suc, ◌+◌, ◌-◌, ◌*◌, ◌≤◌, ◌<◌, ◌≡◌, refl, sym, ap, ◌∙◌, true, false, leb, ◌==◌, List, [],
  ◌∷◌, ◌++◌, arith, ==_iff, le→leb,
}
use tidal_crypto_intelligenc.Study.Prices.{Floats, five_minutes}
use tidal_crypto_intelligenc.Signals.{FlowBar, Bars, sum_bars}
use tidal_crypto_intelligenc.Signals.Baseline.{times, steps, sample, gathered, counted, dated}

pub times_last : (n t : ℕ) → times (suc n) t ≡ times n t ++ (t + n * five_minutes) ∷ []
times_last zero t = ap (λ u. u ∷ []) (omega arith)
times_last (suc n) t =
    ap (λ us. t ∷ us)
      (times_last n (t + five_minutes)
        ∙ ap (λ u. times n (t + five_minutes) ++ u ∷ []) (omega arith))

pub ==_refl : (d : ℕ) → (d == d) ≡ true
==_refl d = (==_iff d d).1 refl

pub steps_of : (n t : ℕ) → steps t (t + n * five_minutes) ≡ n
steps_of n t = omega arith

-- What a time adds to the count and to the dates, and takes from them.
pub counted-append :
    (bars : Bars) (ts us : List ℕ) → counted bars (ts ++ us) ≡ counted bars ts + counted bars us
counted-append bars [] us = omega arith
counted-append bars (t ∷ ts) us = let rest = counted-append bars ts us in ground arith

pub dated-append :
    (bars : Bars) (ts us : List ℕ) (d : ℕ)
    → dated bars (ts ++ us) d ≡ dated bars ts d + dated bars us d
dated-append bars [] us d = omega arith
dated-append bars (t ∷ ts) us d = let rest = dated-append bars ts us d in ground arith

lt→leb : (a b : ℕ) → b < a → leb a b ≡ false
lt→leb a b h = ground arith

module _ (F : Floats) where
  open F use {Float}

  -- The samples at the given ends.
  abbrev pub picks : (FlowBar → Float) → Bars → ℕ → List ℕ → List Float
  picks g bars n [] = []
  picks g bars n (e ∷ es) = sample F g (sum_bars bars e n) ++ picks g bars n es

  pub gathered_late :
      (g : FlowBar → Float) (bars : Bars) (n wait from k t : ℕ)
      → from + wait ≤ t + five_minutes
      → gathered F g bars n wait from (times k t) ≡ picks g bars n (times k (t + five_minutes))
  gathered_late g bars n wait from zero t h = refl
  gathered_late g bars n wait from (suc k) t h =
      let e = le→leb wait (t + five_minutes - from) (omega arith) in
      rw (e, gathered_late g bars n wait from k (t + five_minutes) (omega arith))

  pub gathered_early :
      (g : FlowBar → Float) (bars : Bars) (n wait from j k m t : ℕ)
      → m ≡ j + k
      → t + j * five_minutes + five_minutes ≡ from + wait
      → 0 < wait
      → gathered F g bars n wait from (times m t) ≡ picks g bars n (times k (from + wait))
  gathered_early g bars n wait from zero k m t e h w =
      gathered_late g bars n wait from m t (omega arith)
      ∙ ap (λ u. picks g bars n (times m u)) h'
      ∙ ap (λ i. picks g bars n (times i (from + wait))) e'
    where
      h' : t + five_minutes ≡ from + wait
      h' = omega arith

      e' : m ≡ k
      e' = omega arith
  gathered_early g bars n wait from (suc j) k zero t e h w = ground arith
  gathered_early g bars n wait from (suc j) k (suc m) t e h w =
      let b = lt→leb wait (t + five_minutes - from) (omega arith) in
      rw
        (
          b,
          gathered_early g bars n wait from j k m (t + five_minutes) (omega arith) (omega arith) w,
        )
        refl

  pub picks-append :
      (g : FlowBar → Float) (bars : Bars) (n : ℕ) (es fs : List ℕ)
      → picks g bars n (es ++ fs) ≡ picks g bars n es ++ picks g bars n fs
  picks-append g bars n [] fs = refl
  picks-append g bars n (e ∷ es) fs =
      ap (λ l. sample F g (sum_bars bars e n) ++ l) (picks-append g bars n es fs)
      ∙ sym (append_assoc (sample F g (sum_bars bars e n)) _ _)
