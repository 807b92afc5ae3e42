-- ===== src/Signals/Lifecycle/Ends.antt =====
-- The follow-up of a confirmed signal comes to an end.
use tidal_crypto_intelligenc.Base.{
  ℕ, ◌+◌, ◌*◌, ◌≤◌, ◌≡◌, refl, sym, Bool, true, not, ◌&&◌, ◌||◌, ltb, leb, ◌==◌, le→leb,
  if◌then◌else◌, if-split, Option, none, some, String, str_eq, has_prefix, join, is_some, is_none,
  hour, minute, arith,
}
use tidal_crypto_intelligenc.Study.Prices.{Floats, Candles}
use mathlib.Core.Path.{subst}
use tidal_crypto_intelligenc.Signals.{Bars, if_some, sum_bars}
use tidal_crypto_intelligenc.Signals.Lifecycle.{
  progress_grace, Signal, progress_end, close_at, is_outside, one, flow_of, judged, known,
  status_before, recorded, closing, price_progress, progress_terminal,
}

-- A status that can be completed.
abbrev IsCompletable : String → Type 0
IsCompletable st = has_prefix (join "completed_" st) "completed_" ≡ true

abbrev ends_with : String → Bool
ends_with st = has_prefix st "completed_" || str_eq st "ended_with_gap"

judged-IsCompletable : (outside : ℕ) (same : Bool) → IsCompletable (judged outside same)
judged-IsCompletable outside same =
    if-split IsCompletable (outside == 0) _ _ (λ e. refl)
      (λ e.
        if-split IsCompletable (not same) _ _ (λ f. refl)
          (λ f. if-split IsCompletable (outside == 2) _ _ (λ g. refl) (λ g. refl)))

module _ (F : Floats) where
  open F use {Float}

  known-IsCompletable :
      (s : Signal F) (now outside : ℕ) (same : Option Bool)
      → IsCompletable (known F s now outside same)
  known-IsCompletable s now outside none = refl
  known-IsCompletable s now outside (some same) =
      if-split IsCompletable (is_some s.confirmed_at) _ _ (λ e. judged-IsCompletable outside same)
        (λ e. if-split IsCompletable (leb s.expires now) _ _ (λ f. refl) (λ f. refl))

  before-IsCompletable :
      (s : Signal F) (end now : ℕ) (fresh : Bool) (c2 c1 : Option Float) (outside : ℕ)
      (same : Option Bool)
      → IsCompletable (recorded F s (status_before F s end now fresh c2 c1 outside same))
  before-IsCompletable s end now fresh c2 c1 outside same =
      if-split IsCompletable (is_some s.confirmed_at && is_none s.confirmed_through) _ _ (λ e. refl)
        (λ e.
          if-split IsCompletable
            (is_none s.confirmed_at && fresh && ltb end (s.data_through + 10 * minute)) "waiting"
            (if not fresh || is_none same || is_none c2 || is_none c1
              then "unknown"
              else known F s now outside same)
            (λ f. refl)
            (λ f.
              if-split IsCompletable (not fresh || is_none same || is_none c2 || is_none c1)
                "unknown" (known F s now outside same) (λ g. refl)
                (λ g. known-IsCompletable s now outside same)))

  closing_ends :
      (ends end now : ℕ) (fresh : Bool) (st : String)
      → ends + progress_grace ≤ now
      → IsCompletable st
      → ends_with (closing ends end now fresh st) ≡ true
  closing_ends ends end now fresh st h k =
      if-split (λ (z : String). ends_with z ≡ true) (ltb now ends) _ _ (λ e. ground arith)
        (λ e.
          if-split (λ (z : String). ends_with z ≡ true)
            (not fresh || ltb end ends || str_eq st "unknown")
            (if leb (ends + progress_grace) now then "ended_with_gap" else "awaiting_data")
            (join "completed_" st) (λ f. rw (le→leb (ends + progress_grace) now h) refl)
            (λ f. rw k refl))

  -- From four hours and twenty minutes after the data's end of a signal's confirmation, the progress
  -- that is computed is final, whatever data are there: it is completed, or ended with a gap.
  pub price_progress_ends :
      (s : Signal F) (bars : Bars) (candles : Candles F) (end now : ℕ) (fresh : Bool) (through : ℕ)
      → s.confirmed_through ≡ some through
      → through + 4 * hour + progress_grace ≤ now
      → progress_terminal F (some (price_progress F s bars candles end now fresh)) ≡ true
  unfolding price_progress
  price_progress_ends s bars candles end now fresh through c h =
      let last = progress_end F s end in
      let c2 = close_at F s candles last 2 in
      let c1 = close_at F s candles last 1 in
      let outside = one (is_outside F s c2) + one (is_outside F s c1) in
      let same = flow_of F s (sum_bars bars last 3) in
      let st = recorded F s (status_before F s last now fresh c2 c1 outside same) in
      let done =
        closing_ends (through + 4 * hour) last now fresh st h
          (before-IsCompletable s last now fresh c2 c1 outside same) in
      subst
        (λ (o : Option ℕ).
          ends_with (
            if_some (if_some o none (λ t. some (t + 4 * hour))) st
              (λ e. closing e last now fresh st))
          ≡ true)
        (sym c) done
