-- ===== src/Scheduler/OrderHistory.antt =====
-- `runOrderHistory` (internal/datahub/order_scheduler.go): one page of the history of large orders,
-- over persisted windows that are halved while the answer is full. The request, `Normalize` and
-- `Ingest` enter as their answers.
use tidal_crypto_intelligenc.Base.{
  ℕ, ◌+◌, ◌-◌, ◌*◌, ◌/◌, ◌^◌, min, max, Bool, true, false, ◌&&◌, ◌||◌, not, Option, none, some,
  List, [], ◌∷◌, ◌++◌, String, str_eq, if◌then◌else◌, ltb, leb, ◌==◌, length, millisecond, second,
  minute, hour, truncate,
}
use tidal_crypto_intelligenc.Scheduler.Ranges.{OrderRange}
use tidal_crypto_intelligenc.Scheduler.Quota.{FetchError}
use tidal_crypto_intelligenc.Scheduler.Job.{Dataset, Job}
use tidal_crypto_intelligenc.Scheduler.Dispatch.{Scheduler}
use tidal_crypto_intelligenc.Scheduler.Completion.{RunError, refused_by, complete}
pub mod Windows

abbrev pub day : ℕ
day = 24 * hour

-- Where a job without windows starts, and whether that leaves a gap: a minute before the last
-- window's end, half an hour back at first, and 30 days back at most.
pub first_window : ℕ → Option ℕ → OrderRange × Bool
first_window now through =
    let from : ℕ = elim through [ none ↦ now - 30 * minute | some t ↦ t - minute ] in
    if ltb (from + 30 * day) now
    then (record { from = now - 30 * day; to = now }, true)
    else (record { from = from; to = now }, false)

-- The windows to work on, and the job's gap count.
abbrev pub windows : ℕ → Option ℕ → List OrderRange → ℕ → OrderRange × List OrderRange × ℕ
windows now through [] gaps =
    let w = first_window now through in (w.0, [], if w.1 then gaps + 1 else gaps)
windows now through (r ∷ rs) gaps = (r, rs, gaps)

-- A row of the answer: when the order ended, and its reported state.
pub record LargeRow : Type 0 where
  pub end : Option ℕ
  pub raw_state : ℕ

abbrev pub ends_in : OrderRange → Option ℕ → Bool
ends_in r none = false
ends_in r (some t) = leb (truncate r.from millisecond) t && ltb t r.to

pub valid_row : OrderRange → LargeRow → Bool
valid_row r row = ends_in r row.end && (row.raw_state == 2 || row.raw_state == 3)

-- `strconv.Itoa` at the two states that a valid row has.
abbrev pub state_text : ℕ → String
state_text n = if n == 2 then "2" else "3"

pub all_valid : OrderRange → List LargeRow → Bool
unfolding valid_row
all_valid r [] = true
all_valid r (row ∷ rows) = valid_row r row && all_valid r rows

pub state_mismatch : String → List LargeRow → Bool
state_mismatch asked [] = false
state_mismatch asked (row ∷ rows) =
    not (str_eq (state_text row.raw_state) asked) || state_mismatch asked rows

-- The answer to the page: the normalised rows, or an error of the fetch or of `Normalize`, and the
-- error of `Ingest`, if it is called.
pub record Page : Type 0 where
  pub rows : List LargeRow
  pub failed : Option RunError
  pub ingest_failed : Option RunError

abbrev pub bad_rows : RunError
bad_rows = record {
  message = "大单历史返回未满足结束时间/有效状态契约，暂停推进该窗口";
  history_range = false;
  no_data = false;
  fetch = none;
}

abbrev pub saturated : Page → Bool
saturated p = leb 100 (length p.rows)

-- The error with which the page ends, if any. A full page is not ingested.
unfoldable pub page_error : OrderRange → Page → Option RunError
unfolding all_valid
page_error r p = elim p.failed [
  | some e ↦ some e
  | none ↦
      if all_valid r p.rows then if saturated p then none else p.ingest_failed else some bad_rows
]

-- The two halves, cut at a whole millisecond.
pub split : OrderRange → OrderRange × OrderRange
split r =
    let mid = (r.from / millisecond + r.to / millisecond) / 2 * millisecond in
    (record { from = r.from; to = mid }, record { from = mid; to = r.to })

abbrev pub order_failed : ℕ → RunError → List OrderRange → Job → Job
order_failed fetched e ranges c =
    let failures = c.failures + 1 in
    record c {
      failures = failures;
      error = e.message;
      next = fetched + 30 * 2 ^ min failures 6 * second;
      order_ranges = ranges;
    }

abbrev pub first_or : Option ℕ → ℕ → Option ℕ
first_or none t = some t
first_or (some s) t = some s

-- What a good page does to the first window.
pub advance : OrderRange → List OrderRange → Bool → Job → Job
unfolding split
advance r rest full c =
    if full
    then if leb r.to (r.from + millisecond) || leb 64 (length (r ∷ rest))
      then record c {
        order_gaps = c.order_gaps + 1;
        error = "历史窗口达到返回上限，存在无法补齐的缺口";
        order_through = some r.to;
        order_ranges = rest;
      }
      else record c { order_ranges = (split r).0 ∷ (split r).1 ∷ rest }
    else record c {
      order_first = first_or c.order_first r.from;
      order_through = some r.to;
      order_ranges = rest;
    }

abbrev pub pause : ℕ → Dataset → List OrderRange → ℕ
pause fetched d [] = fetched + d.refresh * second
pause fetched d (r ∷ rs) = fetched + 10 * second

pub order_succeeded : ℕ → Dataset → OrderRange → List OrderRange → Bool → Bool → Job → Job
unfolding advance
order_succeeded fetched d r rest mismatch full c =
    let cleared = record c { failures = 0; error = ""; last_success = some fetched } in
    let noted =
      if mismatch
      then record cleared {
        order_gaps = cleared.order_gaps + 1;
        error = "上游状态筛选与记录不一致；保留原始状态，该类历史覆盖不完整";
      }
      else cleared in
    let moved = advance r rest full noted in
    record moved { next = pause fetched d moved.order_ranges }

abbrev pub order_outcome :
    Option RunError → ℕ → Dataset → OrderRange → List OrderRange → Bool → Bool → Job → Job
order_outcome (some e) fetched d r rest mismatch full c = order_failed fetched e (r ∷ rest) c
order_outcome none fetched d r rest mismatch full c =
    order_succeeded fetched d r rest mismatch full c

-- The job after the page that `j` asked for at `now`, and that came at `fetched`. `asked` is the
-- state that the dataset's parameters ask for.
unfoldable pub order_answered : ℕ → ℕ → String → Job → Page → Job → Job
unfolding order_succeeded page_error state_mismatch first_window
order_answered now fetched asked j p c =
    let w = windows now j.order_through j.order_ranges j.order_gaps in
    order_outcome (page_error w.0 p) fetched j.dataset w.0 w.1 (state_mismatch asked p.rows)
      (saturated p) (record c { order_gaps = max c.order_gaps w.2; in_flight = false })

abbrev pub fetch_of : Option RunError → Option FetchError
fetch_of none = none
fetch_of (some e) = e.fetch

unfoldable pub run_order_history : ℕ → ℕ → String → Job → Page → Scheduler → Scheduler
unfolding order_answered
run_order_history now fetched asked j p s =
    let w = windows now j.order_through j.order_ranges j.order_gaps in
    let t = complete j.id (order_answered now fetched asked j p) s in
    record t { quota = refused_by fetched (fetch_of (page_error w.0 p)) t.quota }
