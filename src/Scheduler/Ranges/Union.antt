-- ===== src/Scheduler/Ranges/Union.antt =====
-- What `mergeRanges` returns: ascending windows, apart from one another, with the union of the given.
use tidal_crypto_intelligenc.Base.{
  ℕ, suc, ◌<◌, ◌≤◌, ◌≡◌, ◌↔◌, ◌⊎◌, inl, inr, ltb, leb, List, [], ◌∷◌, max, arith, All, Bool-cases,
  refl, ltb→lt,
}
use tidal_crypto_intelligenc.Scheduler.Ranges.{
  OrderRange, insert_by_from, sort_by_from, merge_from, merge_sorted, merge_ranges,
}

-- Some range of the list holds the instant: `From <= t < To`.
abbrev pub Covers : List OrderRange → ℕ → Type 0
Covers [] t = ⊥
Covers (r ∷ rs) t = ((r.from ≤ t) × (t < r.to)) ⊎ Covers rs t

abbrev pub Ascending : List OrderRange → Type 0
Ascending [] = Unit
Ascending (r ∷ rs) = All (λ x. r.from ≤ x.from) rs × Ascending rs

-- No range is empty, and each ends before the next begins.
abbrev pub Apart : List OrderRange → Type 0
Apart [] = Unit
Apart (r ∷ rs) = (r.from < r.to) × All (λ x. r.to < x.from) rs × Apart rs

Covers-insert :
    (r : OrderRange) (rs : List OrderRange) (t : ℕ)
    → Covers (insert_by_from r rs) t ↔ Covers (r ∷ rs) t
unfolding insert_by_from
Covers-insert r [] t = (λ c. c, λ c. c)
Covers-insert r (x ∷ xs) t = ground (arith, Covers-insert r xs t)

Covers-sort : (rs : List OrderRange) (t : ℕ) → Covers (sort_by_from rs) t ↔ Covers rs t
unfolding sort_by_from
Covers-sort [] t = (λ c. c, λ c. c)
Covers-sort (r ∷ rs) t = ground (arith, Covers-insert r (sort_by_from rs) t, Covers-sort rs t)

-- A lower bound of all starts.
abbrev pub From : ℕ → List OrderRange → Type 0
From b rs = All (λ r. b ≤ r.from) rs

From-weaken : (a b : ℕ) (rs : List OrderRange) → a ≤ b → From b rs → From a rs
From-weaken a b [] h k = tt
From-weaken a b (r ∷ rs) h k = (omega arith, From-weaken a b rs h k.1)

insert-From :
    (b : ℕ) (r : OrderRange) (rs : List OrderRange)
    → b ≤ r.from
    → From b rs
    → From b (insert_by_from r rs)
unfolding insert_by_from
insert-From b r [] h k = (h, tt)
insert-From b r (x ∷ xs) h k = ground (arith, insert-From b r xs)

insert-Ascending :
    (r : OrderRange) (rs : List OrderRange) → Ascending rs → Ascending (insert_by_from r rs)
unfolding insert_by_from
insert-Ascending r [] k = (tt, tt)
insert-Ascending r (x ∷ xs) k = elim (Bool-cases (ltb x.from r.from)) [
  | inl e ↦ rw e (insert-From x.from r xs (ground arith) k.0, insert-Ascending r xs k.1)
  | inr e ↦ rw e ((ground arith, From-weaken r.from x.from xs (ground arith) k.0), k)
]

pub sort-Ascending : (rs : List OrderRange) → Ascending (sort_by_from rs)
unfolding sort_by_from
sort-Ascending [] = tt
sort-Ascending (r ∷ rs) = insert-Ascending r (sort_by_from rs) (sort-Ascending rs)

Covers-merge_from :
    (last : OrderRange) (rs : List OrderRange) (t : ℕ)
    → From last.from rs
    → Ascending rs
    → Covers (merge_from last rs) t ↔ Covers (last ∷ rs) t
unfolding merge_from
Covers-merge_from last [] t f a = (λ c. c, λ c. c)
Covers-merge_from last (r ∷ rs) t f a = ground (
  arith,
  Covers-merge_from last rs t f.1 a.1,
  Covers-merge_from (record last { to = max last.to r.to }) rs t f.1 a.1,
  Covers-merge_from r rs t a.0 a.1,
)

Covers-merge_sorted :
    (rs : List OrderRange) (t : ℕ) → Ascending rs → Covers (merge_sorted rs) t ↔ Covers rs t
unfolding merge_sorted
Covers-merge_sorted [] t a = (λ c. c, λ c. c)
Covers-merge_sorted (r ∷ rs) t a =
    ground (arith, Covers-merge_sorted rs t a.1, Covers-merge_from r rs t a.0 a.1)

-- Merging changes no coverage: an instant lies in a merged window exactly when it lies in one of
-- the given windows.
pub Covers-merge_ranges : (rs : List OrderRange) (t : ℕ) → Covers (merge_ranges rs) t ↔ Covers rs t
unfolding merge_ranges
Covers-merge_ranges rs t =
    let sorted = Covers-merge_sorted (sort_by_from rs) t (sort-Ascending rs) in
    let given = Covers-sort rs t in (λ c. given.0 (sorted.0 c), λ c. sorted.1 (given.1 c))

abbrev After : ℕ → List OrderRange → Type 0
After b rs = All (λ r. b < r.from) rs

merge_from-After :
    (b : ℕ) (last : OrderRange) (rs : List OrderRange)
    → b < last.from
    → After b rs
    → After b (merge_from last rs)
unfolding merge_from
merge_from-After b last [] h f = (h, tt)
merge_from-After b last (r ∷ rs) h f = ground (
  arith,
  merge_from-After b last rs h f.1,
  merge_from-After b (record last { to = max last.to r.to }) rs h f.1,
  merge_from-After b r rs f.0 f.1,
)

From-After : (a b : ℕ) (rs : List OrderRange) → a < b → From b rs → After a rs
From-After a b rs h f = From-weaken (suc a) b rs h f

merge_from-Apart :
    (last : OrderRange) (rs : List OrderRange)
    → last.from < last.to
    → From last.from rs
    → Ascending rs
    → Apart (merge_from last rs)
unfolding merge_from
merge_from-Apart last [] h f a = (h, tt, tt)
merge_from-Apart last (r ∷ rs) h f a = elim (Bool-cases (ltb r.from r.to)) [
  | inr e ↦ rw e (merge_from-Apart last rs h f.1 a.1)
  | inl e ↦ elim (Bool-cases (leb r.from last.to)) [
    | inl j ↦
        rw (e, j)
          (merge_from-Apart (record last { to = max last.to r.to }) rs (omega arith) f.1 a.1)
    | inr j ↦
        let gap : last.to < r.from = ground arith in
        rw (e, j)
          (
            h,
            merge_from-After last.to r rs gap (From-After last.to r.from rs gap a.0),
            merge_from-Apart r rs (ltb→lt _ _ e) a.0 a.1,
          )
  ]
]

merge_sorted-Apart : (rs : List OrderRange) → Ascending rs → Apart (merge_sorted rs)
unfolding merge_sorted
merge_sorted-Apart [] a = tt
merge_sorted-Apart (r ∷ rs) a = elim (Bool-cases (ltb r.from r.to)) [
  | inl e ↦ rw e (merge_from-Apart r rs (ltb→lt _ _ e) a.0 a.1)
  | inr e ↦ rw e (merge_sorted-Apart rs a.1)
]

-- The merged windows are not empty, ascend, and each ends strictly before the next begins.
pub merge_ranges-Apart : (rs : List OrderRange) → Apart (merge_ranges rs)
unfolding merge_ranges
merge_ranges-Apart rs = merge_sorted-Apart (sort_by_from rs) (sort-Ascending rs)

merge_from-Apart_id :
    (last : OrderRange) (rs : List OrderRange) → Apart (last ∷ rs) → merge_from last rs ≡ last ∷ rs
unfolding merge_from
merge_from-Apart_id last [] h = refl
merge_from-Apart_id last (r ∷ rs) h = ground (arith, merge_from-Apart_id r rs h.2)

insert_Apart_id :
    (r : OrderRange) (rs : List OrderRange) → Apart (r ∷ rs) → insert_by_from r rs ≡ r ∷ rs
unfolding insert_by_from
insert_Apart_id r [] h = refl
insert_Apart_id r (x ∷ xs) h = ground arith

sort_Apart_id : (rs : List OrderRange) → Apart rs → sort_by_from rs ≡ rs
unfolding sort_by_from
sort_Apart_id [] h = refl
sort_Apart_id (r ∷ rs) h = rw (sort_Apart_id rs h.2) (insert_Apart_id r rs h)

merge_sorted-Apart_id : (rs : List OrderRange) → Apart rs → merge_sorted rs ≡ rs
unfolding merge_sorted
merge_sorted-Apart_id [] h = refl
merge_sorted-Apart_id (r ∷ rs) h = ground (arith, merge_from-Apart_id r rs h)

-- Merging what is already merged changes nothing.
pub merge_ranges_idempotent :
    (rs : List OrderRange) → merge_ranges (merge_ranges rs) ≡ merge_ranges rs
merge_ranges_idempotent rs =
    unfold merge_ranges in
    rw (sort_Apart_id _ (merge_ranges-Apart rs)) (merge_sorted-Apart_id _ (merge_ranges-Apart rs))
