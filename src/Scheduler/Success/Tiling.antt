-- ===== src/Scheduler/Success/Tiling.antt =====
-- The gaps and the covered windows of a page of history.
use tidal_crypto_intelligenc.Base.{
  ℕ, ◌+◌, ◌≤◌, ◌<◌, ◌⊎◌, ◌↔◌, inl, inr, ◌||◌, List, [], ◌∷◌, arith, ltb, leb, Bool-cases,
}
use tidal_crypto_intelligenc.Scheduler.Ranges.Union.{Covers}
use tidal_crypto_intelligenc.Scheduler.Job.{HistoryGap}
use tidal_crypto_intelligenc.Scheduler.Success.{tile}

-- The instant lies in a gap.
abbrev pub Missing : List HistoryGap → ℕ → Type 0
Missing [] t = ⊥
Missing (g ∷ gs) t = ((g.from ≤ t) × (t < g.to)) ⊎ Missing gs t

tile_end : (step to cursor : ℕ) (ats : List ℕ) → cursor ≤ (tile step to cursor ats).2
unfolding tile
tile_end step to cursor [] = omega arith
tile_end step to cursor (at ∷ ats) =
    let a = tile_end step to cursor ats in let b = tile_end step to (at + step) ats in ground arith

-- From the cursor to where it ends, each instant is in a gap or in a covered window, and not in
-- both; before and after there are neither.
pub tile-Covers :
    (step to cursor : ℕ) (ats : List ℕ) (t : ℕ)
    → let r = tile step to cursor ats in
      ((Missing r.0 t ⊎ Covers r.1 t) ↔ ((cursor ≤ t) × (t < r.2)))
      × ¬ (Missing r.0 t × Covers r.1 t)
unfolding tile
tile-Covers step to cursor [] t = (ground arith, ground arith)
tile-Covers step to cursor (at ∷ ats) t =
    let a = tile-Covers step to cursor ats t in
    let b = tile-Covers step to (at + step) ats t in
    let e = tile_end step to (at + step) ats in
    elim (Bool-cases (ltb at cursor || leb to at)) [
      | inl h ↦ rw h a
      | inr h ↦ elim (Bool-cases (ltb cursor at)) [
        | inl k ↦ rw (h, k) (ground arith, ground arith)
        | inr k ↦ rw (h, k) (ground arith, ground arith)
      ]
    ]
