-- ===== src/Scheduler/Dispatch/Slots.antt =====
-- The bookkeeping of requests in flight, and the rate limit, over `Step`.
use tidal_crypto_intelligenc.Base.{
  ℕ, suc, ◌≤◌, ◌≡◌, refl, inl, inr, Bool, Option, none, not, ◌||◌, leb, true, false, ◌∷◌, some,
  List, [], All, arith, Bool-cases, some_inv, String, str_eq, count,
}
use text.Mathlib.TextPositions.{eq_refl}
use tidal_crypto_intelligenc.Scheduler.Quota.{available}
use tidal_crypto_intelligenc.Scheduler.Job.{Job, lookup, update}
use tidal_crypto_intelligenc.Scheduler.Dispatch.{
  Storage, skipped, select_job, Scheduler, started, abandoned, launch, launch_selected, step,
}
use tidal_crypto_intelligenc.Scheduler.Dispatch.Choice.{select_job_chosen}

abbrev pub busy : List Job → ℕ
busy = count (λ j. j.in_flight)

-- A map holds each id once.
abbrev pub DistinctIds : List Job → Type 0
DistinctIds [] = Unit
DistinctIds (j ∷ js) = All (λ x. str_eq j.id x.id ≡ false) js × DistinctIds js

lookup_skip :
    (j : Job) (js : List Job) (k : String) → str_eq j.id k ≡ false → lookup k (j ∷ js) ≡ lookup k js
unfolding lookup
lookup_skip j js k h = rw h

lookup_each :
    (j : Job) (js all : List Job)
    → All (λ x. str_eq j.id x.id ≡ false) js
    → All (λ x. lookup x.id all ≡ some x) js
    → ((x : Job)
        → lookup x.id all ≡ some x
        → str_eq j.id x.id ≡ false
        → lookup x.id (j ∷ all) ≡ some x)
    → All (λ x. lookup x.id (j ∷ all) ≡ some x) js
lookup_each j [] all d k f = tt
lookup_each j (x ∷ xs) all d k f = (f x k.0 d.0, lookup_each j xs all d.1 k.1 f)

-- Each job of the map is found under its id.
lookup_self : (js : List Job) → DistinctIds js → All (λ x. lookup x.id js ≡ some x) js
unfolding lookup
lookup_self [] d = tt
lookup_self (j ∷ js) d =
    (rw (eq_refl j.id), lookup_each j js js d.0 (lookup_self js d.1) (λ x k e. rw e k))

-- A write under an id changes the count by what it changes in that job.
busy-update_set :
    (key : String) (f : Job → Job) (js : List Job) (j : Job)
    → lookup key js ≡ some j
    → j.in_flight ≡ false
    → (f j).in_flight ≡ true
    → busy (update key f js) ≡ suc (busy js)
unfolding lookup update
busy-update_set key f [] j h a b = cc
busy-update_set key f (x ∷ xs) j h a b = elim (Bool-cases (str_eq x.id key)) [
  | inl e ↦ let same = some_inv (rw e at h) in rw (e, same, b, a)
  | inr e ↦ let ih = busy-update_set key f xs j (rw e at h) a b in rw e (ground arith)
]

pub busy-update_clear :
    (key : String) (f : Job → Job) (js : List Job) (j : Job)
    → lookup key js ≡ some j
    → j.in_flight ≡ true
    → (f j).in_flight ≡ false
    → suc (busy (update key f js)) ≡ busy js
unfolding lookup update
busy-update_clear key f [] j h a b = cc
busy-update_clear key f (x ∷ xs) j h a b = elim (Bool-cases (str_eq x.id key)) [
  | inl e ↦ let same = some_inv (rw e at h) in rw (e, same, b, a)
  | inr e ↦ let ih = busy-update_clear key f xs j (rw e at h) a b in rw e (ground arith)
]

lookup-update :
    (key : String) (f : Job → Job) (js : List Job) (j : Job)
    → lookup key js ≡ some j
    → (f j).id ≡ j.id
    → lookup key (update key f js) ≡ some (f j)
unfolding lookup update
lookup-update key f [] j h e = cc
lookup-update key f (x ∷ xs) j h e = ground (arith, lookup-update key f xs j)

-- A write that keeps the id keeps what holds of every id.
update-All_id {ℓ} :
    (P : String → Type ℓ) (key : String) (f : Job → Job) (js : List Job)
    → ((j : Job) → (f j).id ≡ j.id)
    → All (λ j. P j.id) js
    → All (λ j. P j.id) (update key f js)
unfolding update
update-All_id P key f [] e k = tt
update-All_id P key f (j ∷ js) e k = elim (Bool-cases (str_eq j.id key)) [
  | inl h ↦ rw (h, e j) k
  | inr h ↦ rw h (k.0, update-All_id P key f js e k.1)
]

pub update-DistinctIds :
    (key : String) (f : Job → Job) (js : List Job)
    → ((j : Job) → (f j).id ≡ j.id)
    → DistinctIds js
    → DistinctIds (update key f js)
unfolding update
update-DistinctIds key f [] e d = tt
update-DistinctIds key f (j ∷ js) e d = elim (Bool-cases (str_eq j.id key)) [
  | inl h ↦ rw (h, e j) d
  | inr h ↦
      rw h (
        update-All_id (λ k. str_eq j.id k ≡ false) key f js e d.0,
        update-DistinctIds key f js e d.1,
      )
]

-- The scheduler's books: each id once, and `inflight` counts the jobs in flight, two at most.
pub record IsConsistent (s : Scheduler) : Type 0 where
  pub distinct : DistinctIds s.jobs
  pub counted : s.inflight ≡ busy s.jobs
  pub bounded : s.inflight ≤ 2

due-lookup :
    (now : ℕ) (st : Storage) (js all : List Job)
    → All (λ j. lookup j.id all ≡ some j) js
    → All (λ j. skipped now st j ≡ false → (lookup j.id all ≡ some j) × (j.in_flight ≡ false)) js
unfolding skipped
due-lookup now st [] all k = tt
due-lookup now st (j ∷ js) all k = ((λ h. (k.0, ground arith)), due-lookup now st js all k.1)

-- The chosen job is the map's, and is not in flight.
pub select_job-lookup :
    (now : ℕ) (st : Storage) (js : List Job) (j : Job)
    → DistinctIds js
    → select_job now st js ≡ some j
    → (lookup j.id js ≡ some j) × (j.in_flight ≡ false)
select_job-lookup now st js j d =
    select_job_chosen (λ x. (lookup x.id js ≡ some x) × (x.in_flight ≡ false)) now st js j
      (due-lookup now st js js (lookup_self js d))

launch-IsConsistent :
    (now : ℕ) (saved : Bool) (s : Scheduler) (j : Job)
    → IsConsistent s
    → s.inflight ≤ 1
    → lookup j.id s.jobs ≡ some j
    → j.in_flight ≡ false
    → IsConsistent (launch now saved s j).0
unfolding launch
launch-IsConsistent now true s j c h found idle = record {
  distinct = update-DistinctIds j.id (started now) s.jobs (λ x. refl) c.distinct;
  counted = omega (arith, busy-update_set j.id (started now) s.jobs j found idle refl, c.counted);
  bounded = omega arith;
}
launch-IsConsistent now false s j c h found idle =
    let up = update j.id (started now) s.jobs in
    record {
      distinct =
          update-DistinctIds j.id abandoned up (λ x. refl)
            (update-DistinctIds j.id (started now) s.jobs (λ x. refl) c.distinct);
      counted = omega (
        arith,
        busy-update_set j.id (started now) s.jobs j found idle refl,
        busy-update_clear j.id abandoned up (started now j)
            (lookup-update j.id (started now) s.jobs j found refl) refl refl,
        c.counted,
      );
      bounded = c.bounded;
    }

-- `Step` keeps the books, whether or not the ledger could be saved.
pub step-IsConsistent :
    (now : ℕ) (st : Storage) (saved : Bool) (s : Scheduler)
    → IsConsistent s
    → IsConsistent (step now st saved s).0
unfolding step
step-IsConsistent now st saved s c = elim (Bool-cases (not s.enabled || leb 2 s.inflight)) [
  | inl e ↦ rw e c
  | inr e ↦ elim (Bool-cases (available now s.quota).1) [
    | inr f ↦ rw (e, f) (record { distinct = c.distinct; counted = c.counted; bounded = c.bounded })
    | inl f ↦ rw (e, f) (chosen (select_job now st s.jobs) refl (ground arith))
  ]
]
  where
    pruned : Scheduler
    pruned = record s { quota = (available now s.quota).0 }

    chosen :
        (o : Option Job)
        → select_job now st s.jobs ≡ o
        → s.inflight ≤ 1
        → IsConsistent (launch_selected now saved pruned o).0
    chosen none q h = record { distinct = c.distinct; counted = c.counted; bounded = c.bounded }
    chosen (some j) q h =
        let (found, idle) = select_job-lookup now st s.jobs j c.distinct q in
        launch-IsConsistent now saved pruned j
          (record { distinct = c.distinct; counted = c.counted; bounded = c.bounded }) h found idle
