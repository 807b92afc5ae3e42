-- ===== src/Scheduler/Success/Books.antt =====
-- A good answer keeps the scheduler's books.
use tidal_crypto_intelligenc.Base.{
  ℕ, ◌≡◌, refl, inl, inr, true, false, Option, none, some, List, arith, Bool-cases,
}
use tidal_crypto_intelligenc.Scheduler.Job.{Dataset, Job, lookup, is_live}
use tidal_crypto_intelligenc.Scheduler.Dispatch.{Scheduler}
use tidal_crypto_intelligenc.Scheduler.Dispatch.Slots.{IsConsistent}
use tidal_crypto_intelligenc.Scheduler.Completion.Answers.{complete-IsConsistent}
use tidal_crypto_intelligenc.Scheduler.Success.{
  moved_on, history_succeeded, windowed, succeeded_job, run_succeeded,
}

-- The id and the flag of a job in flight.
abbrev Keeps : Job → Job → Type 0
Keeps c r = (r.id ≡ c.id) × (r.in_flight ≡ c.in_flight)

moved_on-Keeps : (now last from : ℕ) (d : Dataset) (c : Job) → Keeps c (moved_on now last from d c)
unfolding moved_on
moved_on-Keeps now last from d c = ground arith

windowed-Keeps :
    (now last : ℕ) (accepted : List ℕ) (from to : Option ℕ) (d : Dataset) (c : Job)
    → Keeps c (windowed now last accepted from to d c)
unfolding history_succeeded
windowed-Keeps now last accepted (some from) (some to) d c = moved_on-Keeps now last from d _
windowed-Keeps now last accepted none to d c = (refl, refl)
windowed-Keeps now last accepted (some from) none d c = (refl, refl)

succeeded_job_over :
    (all : List Dataset) (now fetched last : ℕ) (accepted : List ℕ) (j c : Job)
    → let r = succeeded_job all now fetched last accepted j c in
      (r.id ≡ c.id) × (r.in_flight ≡ false)
unfolding succeeded_job
succeeded_job_over all now fetched last accepted j c = elim (Bool-cases (is_live j.mode)) [
  | inl e ↦ rw e (refl, refl)
  | inr e ↦ rw e (windowed-Keeps now last accepted j.from j.to j.dataset _)
]

-- A good answer for a job in flight keeps the books: its slot is free again, and no other.
pub run_succeeded-IsConsistent :
    (all : List Dataset) (now fetched last : ℕ) (accepted : List ℕ) (j : Job) (s : Scheduler)
    (c : Job)
    → IsConsistent s
    → lookup j.id s.jobs ≡ some c
    → c.in_flight ≡ true
    → IsConsistent (run_succeeded all now fetched last accepted j s)
unfolding run_succeeded
run_succeeded-IsConsistent all now fetched last accepted j s c k h f =
    complete-IsConsistent j.id (succeeded_job all now fetched last accepted j) s c
      (λ x. (succeeded_job_over all now fetched last accepted j x).0)
      (λ x. (succeeded_job_over all now fetched last accepted j x).1) k h f
