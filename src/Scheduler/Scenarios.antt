-- ===== src/Scheduler/Scenarios.antt =====
-- Concrete runs of the scheduler: two live jobs, a job of order history, and their answers.
use tidal_crypto_intelligenc.Base.{
  ℕ, ◌+◌, ◌-◌, ◌*◌, ◌≤◌, ◌<◌, ◌≡◌, ◌⊎◌, ◌↔◌, inl, inr, refl, true, false, List, [], ◌∷◌, none, some,
  arith, count, max, minute, hour, second, millisecond,
}
use tidal_crypto_intelligenc.Scheduler.Ranges.{OrderRange, merge_ranges}
use tidal_crypto_intelligenc.Scheduler.Ranges.Union.{Covers, Covers-merge_ranges}
use tidal_crypto_intelligenc.Scheduler.Quota.{new_quota}
use tidal_crypto_intelligenc.Scheduler.Quota.Window.{in_window, new_quota-IsLedger}
use tidal_crypto_intelligenc.Scheduler.Job.{Dataset, Job, live, history, lookup}
use tidal_crypto_intelligenc.Scheduler.Dispatch.{
  Storage, Scheduler, step, skipped, select_job, select_from, preferred, priority, current,
  base_score, overdue, ttl_deadline,
}
use tidal_crypto_intelligenc.Scheduler.Dispatch.Choice.{IsChoice, select_job-IsChoice}
use tidal_crypto_intelligenc.Scheduler.Dispatch.Slots.{IsConsistent, step-IsConsistent}
use tidal_crypto_intelligenc.Scheduler.Completion.{RunError, run_failed}
use tidal_crypto_intelligenc.Scheduler.Success.{tile, live_next, moved_on, widened}
use tidal_crypto_intelligenc.Scheduler.Success.Tiling.{Missing, tile-Covers}
use tidal_crypto_intelligenc.Scheduler.Success.Progress.{
  Between, live_next_after, moved_on_progress,
}
use tidal_crypto_intelligenc.Scheduler.OrderHistory.{
  LargeRow, Page, split, order_answered, run_order_history,
}
use tidal_crypto_intelligenc.Scheduler.OrderHistory.Windows.{
  split_adjacent, Settled, order_answered_accounts, run_order_history-IsConsistent,
}
use tidal_crypto_intelligenc.Scheduler.Trace.{
  World, ticked, tick, Reach, here, next, IsSound, Reach-rate,
}
use tidal_crypto_intelligenc.Scheduler.Trace.Refusals.{in_run, Reach-auth}

abbrev footprint : Dataset
footprint = record {
  collection = "btc-spot-priority-v2";
  contract = true;
  id = "footprint.minute-v1";
  kind = "footprint";
  asset = "BTC";
  market = "spot";
  venue = "Binance";
  resolution = 60;
  refresh = 60;
  soft_deadline = 90;
  ttl = 180;
  priority = 100;
}

abbrev minute_job : Job
minute_job = record {
  id = "minute";
  dataset = footprint;
  next = 0;
  last_attempt = none;
  last_success = none;
  last_failure_at = none;
  error = "";
  error_kind = "";
  contract_status = "";
  purpose = "";
  failures = 0;
  in_flight = false;
  mode = live;
  from = none;
  to = none;
  disabled = false;
  completed = false;
  calls = 0;
  queue_wait = 0;
  gaps = [];
  covered = [];
  order_ranges = [];
  order_through = none;
  order_first = none;
  order_gaps = 0;
}

abbrev history_job : Job
history_job = record minute_job { id = "history"; mode = history; from = some 0; to = some hour }

abbrev flying : Job
flying = record minute_job { in_flight = true; failures = 4 }

abbrev two_windows : List OrderRange
two_windows =
    record { from = 20 * second; to = 40 * second } ∷ record { from = 0; to = 20 * second } ∷ []

abbrev order_job : Job
order_job = record flying { id = "orders"; order_ranges = two_windows }

abbrev storage : Storage
storage = record { paused = false; order_paused = false }

abbrev idle : Scheduler
idle = record {
  jobs = minute_job ∷ history_job ∷ [];
  quota = new_quota;
  inflight = 0;
  enabled = true;
}

abbrev engaged : Scheduler
engaged = record idle { jobs = flying ∷ order_job ∷ []; inflight = 2 }

idle-IsConsistent : IsConsistent idle
idle-IsConsistent = record {
  distinct = ((refl, tt), (tt, tt));
  counted = refl;
  bounded = omega arith;
}

engaged-IsConsistent : IsConsistent engaged
engaged-IsConsistent = record {
  distinct = ((refl, tt), (tt, tt));
  counted = refl;
  bounded = omega arith;
}

abbrev at_start : World
at_start = record { scheduler = idle; sent = []; clock = 0 }

at_start-IsSound : IsSound at_start
at_start-IsSound = record {
  books = idle-IsConsistent;
  recorded = [];
  ledger = new_quota-IsLedger;
  covers = λ t. omega arith;
}

abbrev after_two_ticks : World
after_two_ticks = ticked (20 * second) storage true (ticked (10 * second) storage true at_start)

two_ticks : Reach at_start after_two_ticks
unfolding ticked
two_ticks =
    next (next here (tick (10 * second) storage true (omega arith)))
      (tick (20 * second) storage true (omega arith))

abbrev limited : RunError
limited = record {
  message = "429";
  history_range = false;
  no_data = false;
  fetch = some (record { status = 429; retry_after = 5 * second; code = "429" });
}

abbrev row : LargeRow
row = record { end = some (30 * second); raw_state = 2 }

abbrev one_row : Page
one_row = record { rows = row ∷ []; failed = none; ingest_failed = none }

Reach-rate_example :
    (after_two_ticks.scheduler.inflight ≤ 2)
    × (count (in_window (5 * second)) after_two_ticks.sent ≤ 12)
Reach-rate_example = Reach-rate at_start-IsSound two_ticks (5 * second)

abbrev forbidden : RunError
forbidden = record {
  message = "403";
  history_range = false;
  no_data = false;
  fetch = some (record { status = 403; retry_after = 0; code = "403" });
}

abbrev locked_out : World
locked_out = record at_start {
  scheduler = run_failed (12 * second) (11 * second) minute_job forbidden false idle;
}

abbrev still_locked_out : World
still_locked_out = ticked (20 * second) storage true locked_out

Reach-auth_example : still_locked_out.sent ≡ []
Reach-auth_example =
    Reach-auth {w = at_start} {u = locked_out} {v = still_locked_out}
      (in_run (12 * second) (11 * second) minute_job forbidden
        (record { status = 403; retry_after = 0; code = "403" }) false refl (inr refl))
      (next here (tick (20 * second) storage true (omega arith)))

Covers-merge_ranges_example :
    Covers (merge_ranges two_windows) (25 * second) ↔ Covers two_windows (25 * second)
Covers-merge_ranges_example = Covers-merge_ranges two_windows (25 * second)

select_job-IsChoice_example : IsChoice second storage minute_job (history_job ∷ minute_job ∷ [])
unfolding select_job select_from skipped preferred priority current base_score overdue ttl_deadline
select_job-IsChoice_example =
    select_job-IsChoice second storage (history_job ∷ minute_job ∷ []) minute_job refl

step-IsConsistent_example : IsConsistent (step second storage false idle).0
step-IsConsistent_example = step-IsConsistent second storage false idle idle-IsConsistent

run_order_history-IsConsistent_example :
    IsConsistent (run_order_history hour hour "2" order_job one_row engaged)
unfolding lookup
run_order_history-IsConsistent_example =
    run_order_history-IsConsistent hour hour "2" order_job one_row engaged order_job
      engaged-IsConsistent refl refl

abbrev window : OrderRange
window = record { from = 20 * second; to = 40 * second }

abbrev narrow : OrderRange
narrow = record { from = millisecond - 1; to = millisecond + 1 }

order_answered_accounts_example :
    Covers (order_answered hour hour "2" order_job one_row order_job).order_ranges (25 * second)
    ⊎ Settled window
        (25 * second)
        one_row
        (max 0 0)
        (order_answered hour hour "2" order_job one_row order_job).order_gaps
order_answered_accounts_example =
    order_answered_accounts hour hour "2" order_job order_job one_row (25 * second)
      (inl (omega arith, omega arith))

-- Two samples, with two minutes missing between them.
abbrev samples : List ℕ
samples = 0 ∷ 3 * minute ∷ []

tile-Covers_example :
    let r = tile minute hour 0 samples in
    ((Missing r.0 (2 * minute) ⊎ Covers r.1 (2 * minute)) ↔ ((0 ≤ 2 * minute) × (2 * minute < r.2)))
    × ¬ (Missing r.0 (2 * minute) × Covers r.1 (2 * minute))
tile-Covers_example = tile-Covers minute hour 0 samples (2 * minute)

live_next_after_example : hour < live_next (footprint ∷ []) footprint hour second
live_next_after_example = live_next_after (footprint ∷ []) footprint hour second (omega arith)

moved_on_progress_example :
    let r = moved_on hour (10 * minute) 0 footprint history_job in
    (r.disabled ≡ true)
    ⊎ ((r.completed ≡ true) ⊎ ((widened (some 0) 0 ≡ true) ⊎ Between 0 r.from r.to))
moved_on_progress_example = moved_on_progress hour (10 * minute) 0 footprint history_job

split_adjacent_example :
    ((split narrow).1.from ≤ narrow.from)
    × ((split narrow).1.to ≡ narrow.to)
    × ((split narrow).0.to ≤ (split narrow).0.from)
split_adjacent_example = split_adjacent narrow refl
