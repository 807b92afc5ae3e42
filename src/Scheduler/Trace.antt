-- ===== src/Scheduler/Trace.antt =====
-- The scheduler over time: `Step` on every tick, and the answers in any order (the goroutines of
-- `run` take the scheduler's lock for each).
pub mod Refusals
use tidal_crypto_intelligenc.Base.{
  ℕ, ◌+◌, ◌≤◌, ◌≡◌, ◌⊎◌, inl, inr, refl, ◌||◌, not, Bool, true, false, Option, none, some, List, [],
  ◌∷◌, ◌++◌, String, count, count-append, arith, Bool-cases, leb, is_none, if◌then◌else◌,
}
use mathlib.Core.Path.{subst, sym}
use tidal_crypto_intelligenc.Scheduler.Quota.{Quota, FetchError, prune, available, record_start}
use tidal_crypto_intelligenc.Scheduler.Quota.Window.{
  IsLedger, IsLedger-later, prune-IsLedger, record_start-IsLedger, refused-IsLedger, in_window,
  Spaced-twelve, available_prunes,
}
use tidal_crypto_intelligenc.Scheduler.Job.{Dataset, Job, lookup}
use tidal_crypto_intelligenc.Scheduler.Dispatch.{
  Storage, Scheduler, select_job, launch, launch_selected, step,
}
use tidal_crypto_intelligenc.Scheduler.Dispatch.Slots.{IsConsistent, step-IsConsistent}
use tidal_crypto_intelligenc.Scheduler.Completion.{RunError, refused_by, complete, run_failed}
use tidal_crypto_intelligenc.Scheduler.Completion.Answers.{run_failed-IsConsistent}
use tidal_crypto_intelligenc.Scheduler.Success.{run_succeeded}
use tidal_crypto_intelligenc.Scheduler.Success.Books.{run_succeeded-IsConsistent}
use tidal_crypto_intelligenc.Scheduler.OrderHistory.{Page, run_order_history}
use tidal_crypto_intelligenc.Scheduler.OrderHistory.Windows.{run_order_history-IsConsistent}

-- The scheduler, the times of the requests sent so far, and the clock.
pub record World : Type 0 where
  pub scheduler : Scheduler
  pub sent : List ℕ
  pub clock : ℕ

abbrev pub sent_at : ℕ → Option Job → List ℕ → List ℕ
sent_at now none sent = sent
sent_at now (some j) sent = sent ++ now ∷ []

unfoldable pub ticked : ℕ → Storage → Bool → World → World
ticked now st saved w =
    let r = step now st saved w.scheduler in
    record { scheduler = r.0; sent = sent_at now r.1 w.sent; clock = now }

-- `Step` runs on one ticker, so its instants do not go back. An answer comes at any point between
-- two ticks, and the instants that its goroutine read may lie on either side of the last tick.
pub data Move (w : World) : World → Type 0 where
  tick : (now : ℕ) (st : Storage) (saved : Bool) → w.clock ≤ now → Move w (ticked now st saved w)
  fail :
      (now fetched : ℕ) (j c : Job) (e : RunError) (b : Bool)
      → lookup j.id w.scheduler.jobs ≡ some c
      → c.in_flight ≡ true
      → Move w (record w { scheduler = run_failed now fetched j e b w.scheduler })
  page :
      (now fetched : ℕ) (asked : String) (j c : Job) (p : Page)
      → lookup j.id w.scheduler.jobs ≡ some c
      → c.in_flight ≡ true
      → Move w (record w { scheduler = run_order_history now fetched asked j p w.scheduler })
  pass :
      (all : List Dataset) (now fetched last : ℕ) (accepted : List ℕ) (j c : Job)
      → lookup j.id w.scheduler.jobs ≡ some c
      → c.in_flight ≡ true
      → Move w (record w { scheduler = run_succeeded all now fetched last accepted j w.scheduler })

pub data Reach (w : World) : World → Type 0 where
  here : Reach w w
  next : {u v : World} → Reach w u → Move u v → Reach w v

-- The books are right, and every request sent is in a ledger of recorded starts.
pub record IsSound (w : World) : Type 0 where
  pub books : IsConsistent w.scheduler
  pub recorded : List ℕ
  pub ledger : IsLedger w.clock recorded w.scheduler.quota
  pub covers : (t : ℕ) → count (in_window t) w.sent ≤ count (in_window t) recorded

-- What a step does to the ledger: it records at most its own time, and that if it sends a request.
abbrev Records : ℕ → List ℕ → Scheduler × Option Job → Type 0
Records now recorded r =
    (after : List ℕ) × IsLedger now after r.0.quota
    × (((after ≡ recorded) × (r.1 ≡ none)) ⊎ (after ≡ recorded ++ now ∷ []))

launch-Records :
    (now : ℕ) (saved : Bool) (s : Scheduler) (o : Option Job) (q : Quota) (recorded : List ℕ)
    → IsLedger now recorded q
    → s.quota ≡ prune now q
    → (available now q).1 ≡ true
    → Records now recorded (launch_selected now saved s o)
unfolding launch
launch-Records now saved s none q recorded l e a = (
  recorded,
  subst (IsLedger now recorded) (sym e) (prune-IsLedger now recorded q l),
  inl (refl, refl),
)
launch-Records now true s (some j) q recorded l e a = (
  recorded ++ now ∷ [],
  subst (λ p. IsLedger now (recorded ++ now ∷ []) (record_start now p)) (sym e)
      (record_start-IsLedger now recorded q l a),
  inr refl,
)
launch-Records now false s (some j) q recorded l e a = (
  recorded ++ now ∷ [],
  subst (λ p. IsLedger now (recorded ++ now ∷ []) (record_start now p)) (sym e)
      (record_start-IsLedger now recorded q l a),
  inr refl,
)

step-Records :
    (now : ℕ) (st : Storage) (saved : Bool) (s : Scheduler) (recorded : List ℕ)
    → IsLedger now recorded s.quota
    → Records now recorded (step now st saved s)
unfolding step
step-Records now st saved s recorded l = elim (Bool-cases (not s.enabled || leb 2 s.inflight)) [
  | inl e ↦ rw e (recorded, l, inl (refl, refl))
  | inr e ↦ elim (Bool-cases (available now s.quota).1) [
    | inr f ↦ rw (e, f) (recorded, asked, inl (refl, refl))
    | inl f ↦
        rw (e, f)
          (launch-Records now saved (record s { quota = (available now s.quota).0 })
            (select_job now st s.jobs) s.quota recorded l pruned f)
  ]
]
  where
    pruned : (available now s.quota).0 ≡ prune now s.quota
    pruned = available_prunes now s.quota

    asked : IsLedger now recorded (available now s.quota).0
    asked = subst (IsLedger now recorded) (sym pruned) (prune-IsLedger now recorded s.quota l)

refused_by-IsLedger :
    (now t : ℕ) (e : Option FetchError) (recorded : List ℕ) (q : Quota)
    → IsLedger now recorded q
    → IsLedger now recorded (refused_by t e q)
refused_by-IsLedger now t none recorded q l = l
refused_by-IsLedger now t (some e) recorded q l = refused-IsLedger now t e recorded q l

sent_at-covers :
    (now t : ℕ) (o : Option Job) (sent recorded after : List ℕ)
    → count (in_window t) sent ≤ count (in_window t) recorded
    → ((after ≡ recorded) × (o ≡ none)) ⊎ (after ≡ recorded ++ now ∷ [])
    → count (in_window t) (sent_at now o sent) ≤ count (in_window t) after
sent_at-covers now t none sent recorded after h (inl (e, f)) = rw e h
sent_at-covers now t (some j) sent recorded after h (inl (e, f)) = cc
sent_at-covers now t none sent recorded after h (inr e) =
    rw e (omega (arith, count-append (in_window t) recorded (now ∷ [])))
sent_at-covers now t (some j) sent recorded after h (inr e) = rw e (
    omega (
      arith,
      count-append (in_window t) recorded (now ∷ []),
      count-append (in_window t) sent (now ∷ []),
    ))

-- Every move keeps the world sound.
pub Move-IsSound : {w v : World} → Move w v → IsSound w → IsSound v
unfolding ticked run_failed run_order_history run_succeeded complete
Move-IsSound {w} (tick now st saved h) s =
    let l = IsLedger-later w.clock now s.recorded w.scheduler.quota h s.ledger in
    let (after, ledger, grown) = step-Records now st saved w.scheduler s.recorded l in
    record {
      books = step-IsConsistent now st saved w.scheduler s.books;
      recorded = after;
      ledger = ledger;
      covers = λ t. sent_at-covers now t _ w.sent s.recorded after (s.covers t) grown;
    }
Move-IsSound {w} (fail now fetched j c e b found busy) s = record {
  books = run_failed-IsConsistent now fetched j e b w.scheduler c s.books found busy;
  recorded = s.recorded;
  ledger = refused_by-IsLedger w.clock now e.fetch s.recorded w.scheduler.quota s.ledger;
  covers = s.covers;
}
Move-IsSound {w} (page now fetched asked j c p found busy) s = record {
  books = run_order_history-IsConsistent now fetched asked j p w.scheduler c s.books found busy;
  recorded = s.recorded;
  ledger = refused_by-IsLedger w.clock fetched _ s.recorded w.scheduler.quota s.ledger;
  covers = s.covers;
}
Move-IsSound {w} (pass all now fetched last accepted j c found busy) s = record {
  books =
      run_succeeded-IsConsistent all now fetched last accepted j w.scheduler c s.books found busy;
  recorded = s.recorded;
  ledger = s.ledger;
  covers = s.covers;
}

pub Reach-IsSound : {w v : World} → IsSound w → Reach w v → IsSound v
Reach-IsSound s here = s
Reach-IsSound s (next r m) = Move-IsSound m (Reach-IsSound s r)

-- From a sound start, over every sequence of ticks and answers, where the ticks' instants do not go
-- back and the answers' instants are any: at most two requests are in flight, and at most twelve
-- were sent in any minute.
pub Reach-rate :
    {w v : World}
    → IsSound w
    → Reach w v
    → (t : ℕ) → (v.scheduler.inflight ≤ 2) × (count (in_window t) v.sent ≤ 12)
Reach-rate s r t =
    let k = Reach-IsSound s r in
    (k.books.bounded, omega (arith, k.covers t, Spaced-twelve t k.recorded k.ledger.spaced))
