-- ===== src/Scheduler/Trace/Refusals.antt =====
-- What the upstream's refusals stop.
use tidal_crypto_intelligenc.Base.{
  ℕ, ◌<◌, ◌≡◌, ◌⊎◌, inl, inr, refl, ◌∙◌, ◌||◌, not, Bool, true, false, Option, none, some, arith,
  Bool-cases, leb, String,
}
use tidal_crypto_intelligenc.Scheduler.Quota.{Quota, FetchError, available, refused}
use tidal_crypto_intelligenc.Scheduler.Job.{Job}
use tidal_crypto_intelligenc.Scheduler.Ranges.{OrderRange}
use tidal_crypto_intelligenc.Scheduler.Dispatch.{Storage, Scheduler, step}
use tidal_crypto_intelligenc.Scheduler.Completion.{RunError, refused_by, complete, run_failed}
use tidal_crypto_intelligenc.Scheduler.Success.{run_succeeded}
use tidal_crypto_intelligenc.Scheduler.OrderHistory.{Page, windows, page_error, run_order_history}
use tidal_crypto_intelligenc.Scheduler.Trace.{
  World, ticked, Move, tick, fail, page, pass, Reach, here, next,
}

unavailable :
    (now : ℕ) (q : Quota)
    → (q.auth_failed ≡ true) ⊎ (now < q.cooldown)
    → (available now q).1 ≡ false
unfolding available
unavailable now q h = ground arith

closed_step :
    (now : ℕ) (st : Storage) (saved : Bool) (s : Scheduler)
    → (s.quota.auth_failed ≡ true) ⊎ (now < s.quota.cooldown)
    → ((step now st saved s).1 ≡ none)
      × ((step now st saved s).0.quota.auth_failed ≡ s.quota.auth_failed)
unfolding step available
closed_step now st saved s h = elim (Bool-cases (not s.enabled || leb 2 s.inflight)) [
  | inl e ↦ rw e (refl, refl)
  | inr e ↦ rw (e, unavailable now s.quota h) (refl, refl)
]

refused_auth :
    (now : ℕ) (e : Option FetchError) (q : Quota)
    → q.auth_failed ≡ true
    → (refused_by now e q).auth_failed ≡ true
unfolding refused
refused_auth now none q h = h
refused_auth now (some e) q h = ground arith

Move-auth :
    {w v : World}
    → Move w v
    → w.scheduler.quota.auth_failed ≡ true
    → (v.scheduler.quota.auth_failed ≡ true) × (v.sent ≡ w.sent)
unfolding ticked run_failed run_order_history run_succeeded complete
Move-auth {w} (tick now st saved k) h =
    let (quiet, kept) = closed_step now st saved w.scheduler (inl h) in (kept ∙ h, rw quiet)
Move-auth {w} (fail now fetched j c e b found busy) h =
    (refused_auth now e.fetch w.scheduler.quota h, refl)
Move-auth {w} (page now fetched asked j c p found busy) h =
    (refused_auth fetched _ w.scheduler.quota h, refl)
Move-auth {w} (pass all now fetched last accepted j c found busy) h = (h, refl)

-- The answer that the upstream refuses the key with, HTTP 401 or 403, comes back to `run` or to
-- `runOrderHistory`.
abbrev pub Unauthorized : FetchError → Type 0
Unauthorized e = (e.status ≡ 401) ⊎ (e.status ≡ 403)

pub data Denied (w : World) : World → Type 0 where
  in_run :
      (now fetched : ℕ) (j : Job) (x : RunError) (e : FetchError) (b : Bool)
      → x.fetch ≡ some e
      → Unauthorized e
      → Denied w (record w { scheduler = run_failed now fetched j x b w.scheduler })
  in_page :
      (now fetched : ℕ) (asked : String) (j : Job) (p : Page) (x : RunError) (e : FetchError)
      → p.failed ≡ some x
      → x.fetch ≡ some e
      → Unauthorized e
      → Denied w (record w { scheduler = run_order_history now fetched asked j p w.scheduler })

refused-Unauthorized :
    (now : ℕ) (e : FetchError) (q : Quota) → Unauthorized e → (refused now e q).auth_failed ≡ true
unfolding refused
refused-Unauthorized now e q h = ground arith

page_error-failed :
    (r : OrderRange) (p : Page) (x : RunError) → p.failed ≡ some x → page_error r p ≡ some x
unfolding page_error
page_error-failed r p x h = rw h refl

Denied-auth :
    {w u : World} → Denied w u → (u.scheduler.quota.auth_failed ≡ true) × (u.sent ≡ w.sent)
unfolding run_failed run_order_history complete
Denied-auth {w} (in_run now fetched j x e b f k) =
    (rw f (refused-Unauthorized now e w.scheduler.quota k), refl)
Denied-auth {w} (in_page now fetched asked j p x e g f k) = (
  rw (page_error-failed (windows now j.order_through j.order_ranges j.order_gaps).0 p x g, f)
      (refused-Unauthorized fetched e w.scheduler.quota k),
  refl,
)

closed_on :
    {u v : World}
    → u.scheduler.quota.auth_failed ≡ true
    → Reach u v
    → (v.scheduler.quota.auth_failed ≡ true) × (v.sent ≡ u.sent)
closed_on h here = (h, refl)
closed_on h (next r m) =
    let (closed, quiet) = closed_on h r in
    let (still, silent) = Move-auth m closed in (still, silent ∙ quiet)

-- Once the upstream has refused the key with HTTP 401 or 403, to `run` or to `runOrderHistory`, no
-- request is sent again, whatever ticks and answers follow.
pub Reach-auth : {w u v : World} → Denied w u → Reach u v → v.sent ≡ w.sent
Reach-auth d r =
    let (closed, quiet) = Denied-auth d in
    let (still, silent) = closed_on closed r in silent ∙ quiet
