-- ===== src/Scheduler/Completion/Answers.antt =====
-- What a failed request leaves behind.
use tidal_crypto_intelligenc.Base.{
  ℕ, zero, suc, min, ◌+◌, ◌*◌, ◌^◌, ◌≤◌, ◌≡◌, ◌≢◌, Bool, true, false, some, arith, second, hour,
  String,
}
use tidal_crypto_intelligenc.Scheduler.Job.{Job, live, lookup}
use native.Mathlib.Nat.{pow-suc}
use tidal_crypto_intelligenc.Scheduler.Dispatch.{Scheduler}
use tidal_crypto_intelligenc.Scheduler.Dispatch.Slots.{
  IsConsistent, update-DistinctIds, busy-update_clear,
}
use tidal_crypto_intelligenc.Scheduler.Completion.{RunError, failed_job, complete, run_failed}

-- An answer for a job in flight keeps the books.
pub complete-IsConsistent :
    (key : String) (f : Job → Job) (s : Scheduler) (j : Job)
    → ((x : Job) → (f x).id ≡ x.id)
    → ((x : Job) → (f x).in_flight ≡ false)
    → IsConsistent s
    → lookup key s.jobs ≡ some j
    → j.in_flight ≡ true
    → IsConsistent (complete key f s)
unfolding complete
complete-IsConsistent key f s j same over c found busy = record {
  distinct = update-DistinctIds key f s.jobs same c.distinct;
  counted = omega (arith, busy-update_clear key f s.jobs j found busy (over j), c.counted);
  bounded = omega (arith, c.bounded);
}

failed_job_id :
    (now fetched : ℕ) (j : Job) (e : RunError) (b : Bool) (c : Job)
    → (failed_job now fetched j e b c).id ≡ c.id
unfolding failed_job
failed_job_id now fetched j e b c = ground arith

failed_job_over :
    (now fetched : ℕ) (j : Job) (e : RunError) (b : Bool) (c : Job)
    → (failed_job now fetched j e b c).in_flight ≡ false
unfolding failed_job
failed_job_over now fetched j e b c = ground arith

-- A failed answer for a job in flight keeps the books: its slot is free again, and no other.
pub run_failed-IsConsistent :
    (now fetched : ℕ) (j : Job) (e : RunError) (b : Bool) (s : Scheduler) (c : Job)
    → IsConsistent s
    → lookup j.id s.jobs ≡ some c
    → c.in_flight ≡ true
    → IsConsistent (run_failed now fetched j e b s)
unfolding run_failed
run_failed-IsConsistent now fetched j e b s c k found busy =
    let done =
      complete-IsConsistent j.id (failed_job now fetched j e b) s c
        (failed_job_id now fetched j e b) (failed_job_over now fetched j e b) k found busy in
    record { distinct = done.distinct; counted = done.counted; bounded = done.bounded }

doubling : (n : ℕ) → 2 * 15 * second ≤ 15 * 2 ^ suc n * second
doubling zero = omega arith
doubling (suc n) = rw (pow-suc 2 (suc n)) (omega (arith, doubling n))

min-suc : (n : ℕ) → (m : ℕ) × (min (n + 1) 7 ≡ suc m)
min-suc n = (min n 6, omega arith)

-- A failure closes the job for half a minute at least, and for an hour from the fifth in a row on.
pub failed_job_waits :
    (now fetched : ℕ) (j : Job) (e : RunError) (b : Bool) (c : Job)
    → let f = failed_job now fetched j e b c in
      (now + 30 * second ≤ f.next)
      × (4 ≤ c.failures → now + hour ≤ f.next)
      × (4 ≤ c.failures → f.mode ≢ live → f.disabled ≡ true)
unfolding failed_job
failed_job_waits now fetched j e b c =
    let (m, q) = min-suc c.failures in ground (arith, q, doubling m)
