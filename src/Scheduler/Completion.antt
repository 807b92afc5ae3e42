-- ===== src/Scheduler/Completion.antt =====
-- How a request's answer comes back into the scheduler: the error branch of `run`
-- (internal/datahub/scheduler.go), and the bookkeeping that every answer shares. The clock's
-- readings and the error are arguments. The minute contract, which `run` handles after both
-- branches, is not modelled.
use tidal_crypto_intelligenc.Base.{
  ℕ, suc, ◌+◌, ◌-◌, ◌*◌, ◌^◌, min, max, Bool, true, false, ◌&&◌, ◌||◌, not, Option, none, some,
  List, [], ◌∷◌, ◌++◌, String, str_eq, if◌then◌else◌, leb, ◌==◌, second, hour, is_none,
}
use tidal_crypto_intelligenc.Scheduler.Quota.{Quota, FetchError, refused}
use tidal_crypto_intelligenc.Scheduler.Job.{
  Dataset, is_live, is_history, HistoryGap, Job, minute_foot, update,
}
use tidal_crypto_intelligenc.Scheduler.Dispatch.{Scheduler}
pub mod Answers

-- An error as `errors.Is` and `errors.As` see it.
pub record RunError : Type 0 where
  pub message : String
  pub history_range : Bool
  pub no_data : Bool
  pub fetch : Option FetchError

abbrev pub bad_request : Option FetchError → Bool
bad_request none = false
bad_request (some e) = str_eq e.code "400" || e.status == 400

pub page_size : Job → ℕ
page_size j =
    let k = j.dataset.kind in
    if is_history j.mode
      && (str_eq k "flow"
          || str_eq k "oi-history"
          || str_eq k "oi-coin-history"
          || str_eq k "premium"
          || str_eq k "liquidations")
    then 1000
    else 100

-- `minTime(*j.To, j.From.Add(max(60, d.Resolution) * pageSize))`.
pub page_end : Job → ℕ → ℕ → ℕ
unfolding page_size
page_end j from to = min to (from + max 60 j.dataset.resolution * page_size j * second)

-- The `switch` on a history job's error: its kind, and whether the job ends by it.
pub classify : RunError → Bool → ℕ → String × Bool
classify e contract_error failures =
    if e.history_range
    then ("range_mismatch", true)
    else if bad_request e.fetch
    then ("request_rejected", true)
    else if e.no_data
    then ("empty_window", leb 2 failures)
    else if contract_error
    then ("contract_mismatch", true)
    else ("transient", false)

abbrev pub gap_of : Job → Option ℕ → Option ℕ → String → List HistoryGap
gap_of j (some from) (some to) kind =
    record { from = from; to = page_end j from to; reason = kind } ∷ []
gap_of j _ _ kind = []

-- The job's `Mode == "history"` part: `j` is the job as it was started, `c` as it is now.
pub history_failed : Job → RunError → Bool → Job → Job
unfolding classify page_end
history_failed j e contract_error c =
    let verdict = classify e contract_error c.failures in
    let disabled = c.disabled || verdict.1 in
    if is_history j.mode
    then record c {
      error_kind = verdict.0;
      disabled = disabled;
      gaps = if disabled then c.gaps ++ gap_of j j.from j.to verdict.0 else c.gaps;
    }
    else c

-- A dataset under contract that never answered well is closed by a contract error.
pub contract_failed : Dataset → Bool → Job → Job
contract_failed d contract_error c =
    if d.contract && not (minute_foot d) && is_none c.last_success && contract_error
    then record c { contract_status = "failed"; disabled = true }
    else c

-- The pause after a failure: 15 seconds doubled, and an hour or more from the fifth on.
pub backed_off : ℕ → Dataset → Job → Job
backed_off now d c =
    if leb 5 c.failures
    then record c {
      next = now + max hour (d.refresh * second);
      disabled = c.disabled || not (is_live c.mode);
    }
    else record c { next = now + 15 * 2 ^ min c.failures 7 * second }

pub failed_job : ℕ → ℕ → Job → RunError → Bool → Job → Job
unfolding history_failed contract_failed backed_off
failed_job now fetched j e contract_error c =
    let counted = record c {
      in_flight = false;
      last_failure_at = some fetched;
      failures = c.failures + 1;
      error = e.message;
      error_kind = "transient";
    } in
    backed_off now j.dataset
      (contract_failed j.dataset contract_error (history_failed j e contract_error counted))

abbrev pub refused_by : ℕ → Option FetchError → Quota → Quota
refused_by now none q = q
refused_by now (some e) q = refused now e q

-- A job is written back, and its request is over.
unfoldable pub complete : String → (Job → Job) → Scheduler → Scheduler
complete key f s = record s { jobs = update key f s.jobs; inflight = s.inflight - 1 }

unfoldable pub run_failed : ℕ → ℕ → Job → RunError → Bool → Scheduler → Scheduler
unfolding failed_job complete
run_failed now fetched j e contract_error s =
    let t = complete j.id (failed_job now fetched j e contract_error) s in
    record t { quota = refused_by now e.fetch t.quota }
