-- ===== src/Scheduler/Ranges.antt =====
-- `OrderRange` and `mergeRanges` (internal/datahub/scheduler.go): windows of time and their union.
use tidal_crypto_intelligenc.Base.{ℕ, ltb, leb, if◌then◌else◌, List, [], ◌∷◌, ◌++◌, max, Bool}
pub mod Union

pub record OrderRange : Type 0 where
  pub from : ℕ
  pub to : ℕ

-- `sort.Slice` by `From`. It may order equal keys either way.
pub insert_by_from : OrderRange → List OrderRange → List OrderRange
insert_by_from r [] = r ∷ []
insert_by_from r (x ∷ xs) =
    let later = x ∷ insert_by_from r xs in if ltb x.from r.from then later else r ∷ x ∷ xs

pub sort_by_from : List OrderRange → List OrderRange
unfolding insert_by_from
sort_by_from [] = []
sort_by_from (r ∷ rs) = insert_by_from r (sort_by_from rs)

-- The loop of `mergeRanges`: the last range of `out` is held apart as `last`.
pub merge_from : OrderRange → List OrderRange → List OrderRange
merge_from last [] = last ∷ []
merge_from last (r ∷ rs) =
    let skipped = merge_from last rs in
    let joined = merge_from (record last { to = max last.to r.to }) rs in
    let started = last ∷ merge_from r rs in
    if ltb r.from r.to then if leb r.from last.to then joined else started else skipped

-- Ranges before the first that is not empty are dropped.
pub merge_sorted : List OrderRange → List OrderRange
unfolding merge_from
merge_sorted [] = []
merge_sorted (r ∷ rs) =
    let skipped = merge_sorted rs in if ltb r.from r.to then merge_from r rs else skipped

pub merge_ranges : List OrderRange → List OrderRange
unfolding merge_sorted sort_by_from
merge_ranges rs = merge_sorted (sort_by_from rs)
