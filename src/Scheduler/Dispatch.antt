-- ===== src/Scheduler/Dispatch.antt =====
-- `priority`, `selectJobLocked` and `Step` (internal/datahub/scheduler.go). What `persistLocked`
-- answers and the storage status are arguments.
use tidal_crypto_intelligenc.Base.{
  ℕ, zero, suc, ◌+◌, ◌-◌, ◌*◌, min, max, Bool, true, false, ◌&&◌, ◌||◌, not, Option, none, some,
  List, [], ◌∷◌, String, str_eq, if◌then◌else◌, ltb, leb, second,
}
use tidal_crypto_intelligenc.Scheduler.Quota.{Quota, available, record_start}
use tidal_crypto_intelligenc.Scheduler.Job.{
  Dataset, Mode, live, on_demand, history, baseline, is_live, is_history, is_baseline, Job,
  book_flow_collection, core_book, minute_foot, lookup, update,
}
pub mod Choice
pub mod Slots

-- A priority `plus - minus`, in half nanoseconds: the source's seconds are floats, halved.
pub record Score : Type 0 where
  pub plus : ℕ
  pub minus : ℕ

-- `p` points of the source.
abbrev pub points : ℕ → ℕ
points p = p * (2 * second)

abbrev pub score_lt : Score → Score → Bool
score_lt p q = ltb (p.plus + q.minus) (q.plus + p.minus)

-- The score before the deadlines: by priority for a live job, by mode and purpose for others.
-- `wait` is `now - Next`, which is not negative for a job that is due.
unfoldable pub base_score : Job → ℕ → Score
base_score j wait =
    if is_live j.mode
    then record { plus = points (1000 * j.dataset.priority); minus = wait }
    else if str_eq j.purpose "signal_baseline"
    then record { plus = points 1000; minus = min wait (points 500) }
    else if str_eq j.purpose "case"
    then record { plus = points 2000; minus = min wait (points 500) }
    else if str_eq j.purpose "research"
    then record { plus = points 4000; minus = min wait (points 500) }
    else if is_history j.mode
    then record { plus = points 4500; minus = wait }
    else if is_baseline j.mode
    then record { plus = points 5500; minus = min wait (points 500) }
    else record { plus = points 2500; minus = wait }

-- `ttlDeadline + 30`: the deadline itself may be negative.
unfoldable pub ttl_deadline : Dataset → ℕ
ttl_deadline d =
    if str_eq d.collection book_flow_collection && not (str_eq d.kind "book")
    then max d.ttl (d.refresh * 2 + 30)
    else d.ttl

-- What overdue live data takes off.
unfoldable pub overdue : Dataset → Option ℕ → ℕ → ℕ
unfolding ttl_deadline
overdue d none now = points 500
overdue d (some t) now =
    (if ltb (t + d.soft_deadline * second) now then points 2000 else 0)
    + (if ltb (t + ttl_deadline d * second) (now + 30 * second) then points 5000 else 0)

unfoldable pub current : Job → Bool
current j = is_live j.mode && not (str_eq j.dataset.kind "large-history")

unfoldable pub priority : Job → ℕ → Score
unfolding base_score overdue current core_book minute_foot
priority j now =
    let wait = now - j.next in
    let base = base_score j wait in
    if is_live j.mode
      && str_eq j.dataset.collection book_flow_collection
      && (core_book j.dataset || minute_foot j.dataset)
    then record { plus = 0; minus = points 10000 + 2 * wait }
    else if current j
    then record base { minus = base.minus + overdue j.dataset j.last_success now }
    else base

pub record Storage : Type 0 where
  pub paused : Bool
  pub order_paused : Bool

-- The `continue`s of the loop.
unfoldable pub skipped : ℕ → Storage → Job → Bool
skipped now st j =
    j.disabled
    || j.completed
    || j.in_flight
    || ltb now j.next
    || not (is_live j.mode) && st.paused
    || str_eq j.dataset.kind "large-history" && (st.paused || st.order_paused)

-- A job is taken in place of another, by whether each is current, and by their scores.
abbrev pub beats : Bool → Score → Bool → Score → Bool
beats true p true q = score_lt p q
beats true p false q = true
beats false p true q = false
beats false p false q = score_lt p q

unfoldable pub preferred : ℕ → Job → Job → Bool
unfolding current priority
preferred now x y = beats (current x) (priority x now) (current y) (priority y now)

abbrev pub take_better : ℕ → Job → Option Job → Option Job
take_better now j none = some j
take_better now j (some s) = if preferred now j s then some j else some s

unfoldable pub select_from : ℕ → Storage → Option Job → List Job → Option Job
unfolding skipped
select_from now st selected [] = selected
select_from now st selected (j ∷ js) =
    select_from now st (if skipped now st j then selected else take_better now j selected) js

unfoldable pub select_job : ℕ → Storage → List Job → Option Job
unfolding select_from
select_job now st js = select_from now st none js

pub record Scheduler : Type 0 where
  pub jobs : List Job
  pub quota : Quota
  pub inflight : ℕ
  pub enabled : Bool

abbrev pub started : ℕ → Job → Job
started now j = record j {
  in_flight = true;
  queue_wait = now - j.next;
  last_attempt = some now;
  calls = j.calls + 1;
}

abbrev pub abandoned : Job → Job
abandoned j = record j { in_flight = false; error = "无法保存额度账本，暂停请求" }

-- The part of `Step` after the selection.
unfoldable pub launch : ℕ → Bool → Scheduler → Job → Scheduler × Option Job
launch now saved s j =
    let jobs = update j.id (started now) s.jobs in
    let quota = record_start now s.quota in
    if saved
    then (record s { jobs = jobs; quota = quota; inflight = s.inflight + 1 }, some (started now j))
    else (record s { jobs = update j.id abandoned jobs; quota = quota }, none)

abbrev pub launch_selected : ℕ → Bool → Scheduler → Option Job → Scheduler × Option Job
launch_selected now saved s none = (s, none)
launch_selected now saved s (some j) = launch now saved s j

-- `Step`: the new state, and the job whose request was started.
unfoldable pub step : ℕ → Storage → Bool → Scheduler → Scheduler × Option Job
unfolding available launch select_job
step now st saved s =
    let asked = available now s.quota in
    let pruned = record s { quota = asked.0 } in
    if not s.enabled || leb 2 s.inflight
    then (s, none)
    else if asked.1
    then launch_selected now saved pruned (select_job now st s.jobs)
    else (pruned, none)
