-- ===== src/Signals/Accumulator/Reference.antt =====
-- `flowBars` against a description without an accumulator: what a bar is, from the rows of its
-- bucket and the rows of its own resolution.
use mathlib.Core.Path.{subst}
use tidal_crypto_intelligenc.Base.{
  ℕ, ◌+◌, ◌*◌, ◌≡◌, refl, ◌∙◌, Bool, true, false, not, ◌&&◌, ◌||◌, ◌==◌, if◌then◌else◌, Option,
  none, some, List, [], ◌∷◌, second, unix_epoch, unix, arith, Bool-cases, ==_iff, Option-cases, inl,
  inr,
}
use tidal_crypto_intelligenc.Base.Integers.{ℤ, pos, ◌+ℤ◌, +ℤ_assoc, +ℤ_nil, nil_+ℤ}
use tidal_crypto_intelligenc.Signals.{
  Flow, Observation, FlowBar, Bars, no_bar, or_else, if_some, record_time,
}
use tidal_crypto_intelligenc.Signals.Accumulator.{
  FlowAccumulator, new_flow_accumulator, put, is_valid, native, misfit, bucket, bar_at, added,
  add_flow, add, first_of, finish, add_all, flow_bars,
}

-- A row that fits, finer than the bar, in the bucket of `k`.
abbrev pub is_piece : ℕ → ℕ → Observation → Bool
is_piece res k o = not (misfit res o) && not (native o == res) && (k == bucket res o)

-- A valid row of the bar's own resolution, at `k`.
abbrev pub is_whole : ℕ → ℕ → Observation → Bool
is_whole res k o =
    not (misfit res o) && (native o == res) && is_valid o && (k == unix (record_time o))

module _ {ℓ} {A : Type ℓ} where
  -- What a row contributes, if it has a flow and passes the test.
  abbrev pub when : (Observation → Bool) → Observation → (Flow → A) → A → A
  when p o f a = if_some o.flow a (λ v. if p o then f v else a)

-- The seconds of a bucket's rows, and their sums of cents.
abbrev pub seconds : ℕ → ℕ → List Observation → ℕ
seconds res k [] = 0
seconds res k (o ∷ os) = when (is_piece res k) o (λ v. native o) 0 + seconds res k os

abbrev pub total : (Flow → ℤ) → ℕ → ℕ → List Observation → ℤ
total side res k [] = pos 0
total side res k (o ∷ os) = when (is_piece res k) o side (pos 0) +ℤ total side res k os

-- A bucket's row is not valid.
abbrev pub spoiled : ℕ → ℕ → List Observation → Bool
spoiled res k [] = false
spoiled res k (o ∷ os) = when (is_piece res k) o (λ v. not (is_valid o)) false || spoiled res k os

abbrev pub present : ℕ → ℕ → List Observation → Bool
present res k [] = false
present res k (o ∷ os) = when (is_piece res k) o (λ v. true) false || present res k os

-- The last row of the bar's own resolution.
abbrev pub last_whole : ℕ → ℕ → List Observation → Option FlowBar
last_whole res k [] = none
last_whole res k (o ∷ os) =
    first_of (last_whole res k os)
      (when (is_whole res k) o (λ v. some (bar_at (record_time o) v)) none)

abbrev pub reference : List Observation → ℕ → ℕ → Option FlowBar
reference rows res k =
    if present res k rows && (seconds res k rows == res) && not (spoiled res k rows)
    then some (record {
      at = unix_epoch + k * second;
      buy = total (λ v. v.buy) res k rows;
      sell = total (λ v. v.sell) res k rows;
    })
    else last_whole res k rows

add_res : (f : FlowAccumulator) (o : Observation) → (add f o).res ≡ f.res
unfolding add
add_res f o = ground arith

add_counts :
    (f : FlowAccumulator) (o : Observation) (k : ℕ)
    → (add f o).counts k ≡ f.counts k + when (is_piece f.res k) o (λ v. native o) 0
unfolding add
add_counts f o k = ground arith

add_bad :
    (f : FlowAccumulator) (o : Observation) (k : ℕ)
    → (add f o).bad k ≡ (when (is_piece f.res k) o (λ v. not (is_valid o)) false || f.bad k)
unfolding add
add_bad f o k = ground arith

add_direct :
    (f : FlowAccumulator) (o : Observation) (k : ℕ)
    → (add f o).direct k
      ≡ when (is_whole f.res k) o (λ v. some (bar_at (record_time o) v)) (f.direct k)
unfolding add
add_direct f o k = ground arith

==_refl : (j : ℕ) → (j == j) ≡ true
==_refl j = (==_iff j j).1 refl

put-added :
    (m : Bars) (v : Flow) (k j : ℕ)
    → put m k (some (added k v (m k))) j ≡ (if j == k then some (added j v (m j)) else m j)
put-added m v k j = elim (Bool-cases (j == k)) [
  | inl e ↦
      subst
        (λ i. put m i (some (added i v (m i))) j ≡ (if j == k then some (added j v (m j)) else m j))
        ((==_iff j k).0 e) (rw (e, ==_refl j))
  | inr e ↦ rw e refl
]

add_flow_out :
    (f : FlowAccumulator) (o : Observation) (v : Flow) (k : ℕ)
    → (add_flow f o v).out k ≡ (if is_piece f.res k o then some (added k v (f.out k)) else f.out k)
add_flow_out f o v k = elim (Bool-cases (misfit f.res o)) [
  | inl e ↦ simp e
  | inr e ↦ elim (Bool-cases (native o == f.res)) [
    | inl g ↦ elim (Bool-cases (is_valid o)) [ inl h ↦ simp (e, g, h) | inr h ↦ simp (e, g, h) ]
    | inr g ↦ simp (e, g, put-added f.out v (bucket f.res o) k)
  ]
]

flow_out :
    (f : FlowAccumulator) (o : Observation) (k : ℕ) (x : Option Flow)
    → (if_some x f (λ v. add_flow f o v)).out k
      ≡ if_some x
          (f.out k)
          (λ v. if is_piece f.res k o then some (added k v (f.out k)) else f.out k)
flow_out f o k none = refl
flow_out f o k (some v) = add_flow_out f o v k

add_out :
    (f : FlowAccumulator) (o : Observation) (k : ℕ)
    → (add f o).out k ≡ when (is_piece f.res k) o (λ v. some (added k v (f.out k))) (f.out k)
unfolding add
add_out f o k = flow_out f o k o.flow

-- The entries at `k` after some rows.
all_res : (f : FlowAccumulator) (rows : List Observation) → (add_all f rows).res ≡ f.res
unfolding add_all
all_res f [] = refl
all_res f (o ∷ os) = all_res (add f o) os ∙ add_res f o

all_counts :
    (f : FlowAccumulator) (k : ℕ) (rows : List Observation)
    → (add_all f rows).counts k ≡ f.counts k + seconds f.res k rows
unfolding add_all
all_counts f k [] = omega arith
all_counts f k (o ∷ os) =
    let rest = all_counts (add f o) k os in
    let seen = rw (add_res f o, add_counts f o k) at rest in omega arith

all_bad :
    (f : FlowAccumulator) (k : ℕ) (rows : List Observation)
    → (add_all f rows).bad k ≡ (spoiled f.res k rows || f.bad k)
unfolding add_all
all_bad f k [] = refl
all_bad f k (o ∷ os) =
    let rest = all_bad (add f o) k os in
    let seen = rw (add_res f o, add_bad f o k) at rest in ground arith

first_when :
    (a d : Option FlowBar) (p : Observation → Bool) (o : Observation)
    → first_of a (when p o (λ v. some (bar_at (record_time o) v)) d)
      ≡ first_of (first_of a (when p o (λ v. some (bar_at (record_time o) v)) none)) d
first_when (some b) d p o = refl
first_when none d p o = elim (Option-cases o.flow) [
  | inl e ↦ simp e
  | inr (v, e) ↦ elim (Bool-cases (p o)) [ inl h ↦ simp (e, h) | inr h ↦ simp (e, h) ]
]

all_direct :
    (f : FlowAccumulator) (k : ℕ) (rows : List Observation)
    → (add_all f rows).direct k ≡ first_of (last_whole f.res k rows) (f.direct k)
unfolding add_all
all_direct f k [] = refl
all_direct f k (o ∷ os) =
    let rest = all_direct (add f o) k os in
    let seen = rw (add_res f o, add_direct f o k) at rest in
    seen ∙ first_when (last_whole f.res k os) (f.direct k) (is_whole f.res k) o

total_absent :
    (side : Flow → ℤ) (res k : ℕ) (rows : List Observation)
    → present res k rows ≡ false
    → total side res k rows ≡ pos 0
unfolding record_time
total_absent side res k [] h = refl
total_absent side res k (o ∷ os) h = elim (Option-cases o.flow) [
  | inl e ↦ let g = rw e at h in simp (e, total_absent side res k os g)
  | inr (v, e) ↦ elim (Bool-cases (is_piece res k o)) [
    | inl p ↦ let g = rw (e, p) at h in cc
    | inr p ↦ let g = rw (e, p) at h in simp (e, p, total_absent side res k os g)
  ]
]

-- The bar at `k` that the rows make of an earlier one.
abbrev resumed : ℕ → ℕ → List Observation → Option FlowBar → Option FlowBar
resumed res k rows b =
    if present res k rows
    then some (record {
      at = unix_epoch + k * second;
      buy = (or_else b no_bar).buy +ℤ total (λ v. v.buy) res k rows;
      sell = (or_else b no_bar).sell +ℤ total (λ v. v.sell) res k rows;
    })
    else b

resumed_step :
    (res k : ℕ) (o : Observation) (os : List Observation) (b : Option FlowBar)
    → resumed res k os (when (is_piece res k) o (λ v. some (added k v b)) b)
      ≡ resumed res k (o ∷ os) b
resumed_step res k o os b = elim (Option-cases o.flow) [
  | inl e ↦ simp (e, nil_+ℤ)
  | inr (v, e) ↦ elim (Bool-cases (is_piece res k o)) [
    | inr p ↦ simp (e, p, nil_+ℤ)
    | inl p ↦ elim (Bool-cases (present res k os)) [
      | inl q ↦ simp (e, p, q, +ℤ_assoc)
      | inr q ↦ simp (
        e,
        p,
        q,
        total_absent (λ v. v.buy) res k os q,
        total_absent (λ v. v.sell) res k os q,
        +ℤ_nil,
      )
    ]
  ]
]

all_out :
    (f : FlowAccumulator) (k : ℕ) (rows : List Observation)
    → (add_all f rows).out k ≡ resumed f.res k rows (f.out k)
unfolding add_all
all_out f k [] = refl
all_out f k (o ∷ os) =
    let rest = all_out (add f o) k os in
    let seen = rw (add_res f o, add_out f o k) at rest in seen ∙ resumed_step f.res k o os (f.out k)

or_false : (b : Bool) → (b || false) ≡ b
or_false b = ground arith

first_none : (o : Option FlowBar) → first_of o none ≡ o
first_none o = ground arith

-- The bars of `flowBars`: where rows of a finer resolution, all valid, fill the bucket's seconds
-- exactly, the sums of their cents; otherwise the last valid row of the bar's own resolution, if
-- there is one. A row without a flow, off its own grid, coarser than the bar or of a resolution
-- that does not divide it counts for nothing.
pub flow_bars_sum :
    (rows : List Observation) (res k : ℕ) → flow_bars rows res k ≡ reference rows res k
unfolding flow_bars finish new_flow_accumulator
flow_bars_sum rows res k =
    let f = new_flow_accumulator res in
    let a = all_res f rows in
    let b : (add_all f rows).counts k ≡ seconds res k rows = all_counts f k rows ∙ omega arith in
    let c : (add_all f rows).bad k ≡ spoiled res k rows =
      all_bad f k rows ∙ or_false (spoiled res k rows) in
    let d : (add_all f rows).direct k ≡ last_whole res k rows =
      all_direct f k rows ∙ first_none (last_whole res k rows) in
    let e = all_out f k rows in
    elim (Bool-cases (present res k rows)) [
      | inl p ↦ elim (Bool-cases ((seconds res k rows == res) && not (spoiled res k rows))) [
        | inl q ↦ simp (a, b, c, d, e, p, q, nil_+ℤ)
        | inr q ↦ simp (a, b, c, d, e, p, q)
      ]
      | inr p ↦ simp (a, b, c, d, e, p)
    ]
