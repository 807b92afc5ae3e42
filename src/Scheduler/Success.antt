-- ===== src/Scheduler/Success.antt =====
-- The success branch of `run` (internal/datahub/scheduler.go), with `bookFlowNext`
-- (book_flow_profile.go) and `nextETF` (signals.go). The record times of the accepted samples, the
-- time of the last sample and the registry of datasets are arguments; the statistics of the status
-- page are left out, and the minute contract is not modelled.
pub mod Tiling
pub mod Progress
pub mod Books
use tidal_crypto_intelligenc.Base.{
  ℕ, zero, suc, ◌+◌, ◌-◌, ◌*◌, max, Bool, true, false, ◌&&◌, ◌||◌, not, Option, none, some, List,
  [], ◌∷◌, ◌++◌, String, str_eq, if◌then◌else◌, ltb, leb, second, minute, hour, truncate,
}
use tidal_crypto_intelligenc.Scheduler.Ranges.{OrderRange, merge_ranges}
use tidal_crypto_intelligenc.Scheduler.Job.{
  Dataset, is_live, HistoryGap, Job, book_flow_collection, core_book, minute_foot,
}
use tidal_crypto_intelligenc.Scheduler.Dispatch.{Scheduler}
use tidal_crypto_intelligenc.Scheduler.Completion.{complete}

-- `next` moved on by whole periods until it is after `now`; the fuel is the number of moves allowed.
unfoldable pub catch_up : ℕ → ℕ → ℕ → ℕ → ℕ
catch_up zero period now next = next
catch_up (suc fuel) period now next =
    let more = catch_up fuel period now (next + period) in if ltb now next then next else more

-- The book's place among the registry's books that are not core.
unfoldable pub book_index : String → List Dataset → ℕ → Option ℕ
book_index id [] n = none
book_index id (d ∷ ds) n =
    let skipping = book_index id ds n in
    let counting = book_index id ds (n + 1) in
    if not (str_eq d.kind "book") || core_book d
    then skipping
    else if str_eq d.id id
    then some n
    else counting

-- The first time after `now` that is `offset` into a period.
abbrev pub phase : ℕ → ℕ → ℕ → ℕ
phase period offset now =
    let next = truncate now period + offset in if leb next now then next + period else next

abbrev pub core_offset : Dataset → ℕ
core_offset d =
    ((if str_eq d.venue "OKX" then 32 else 6) + (if minute_foot d then 13 else 0)) * second

abbrev pub core_next : Dataset → ℕ → Option ℕ
core_next d now =
    if not (str_eq d.collection book_flow_collection) || not (core_book d) && not (minute_foot d)
    then none
    else some (phase minute (core_offset d) now)

abbrev pub or_core : Dataset → ℕ → Option ℕ → Option ℕ
or_core d now (some n) = some (phase (4 * minute) ((12 + n * 30) * second) now)
or_core d now none = core_next d now

-- `bookFlowNext`, for the registry `all`.
unfoldable pub book_flow_next : List Dataset → Dataset → ℕ → Option ℕ
unfolding book_index core_book minute_foot
book_flow_next all d now =
    if str_eq d.collection book_flow_collection && str_eq d.kind "book" && not (core_book d)
    then or_core d now (book_index d.id all 0)
    else core_next d now

-- `nextETF`: half past eight in the zone eight hours east, which is half past midnight, after eight
-- hours more.
unfoldable pub next_etf : ℕ → ℕ
next_etf now =
    let next = truncate (now + 8 * hour) (24 * hour) + 30 * minute in
    if leb next now then next + 24 * hour else next

abbrev pub or_else : Option ℕ → ℕ → ℕ
or_else none t = t
or_else (some s) t = s

-- When a live job is due again. A period of a nanosecond or more needs at most `now - next + 1` moves.
unfoldable pub live_next : List Dataset → Dataset → ℕ → ℕ → ℕ
unfolding catch_up book_flow_next next_etf
live_next all d now next =
    let caught = catch_up (now - next + 1) (d.refresh * second) now next in
    if str_eq d.kind "etf" then next_etf now else or_else (book_flow_next all d now) caught

unfoldable pub insert_time : ℕ → List ℕ → List ℕ
insert_time t [] = t ∷ []
insert_time t (u ∷ us) = let rest = insert_time t us in if leb t u then t ∷ u ∷ us else u ∷ rest

unfoldable pub sort_times : List ℕ → List ℕ
unfolding insert_time
sort_times [] = []
sort_times (t ∷ ts) = insert_time t (sort_times ts)

-- The gaps and the windows covered by the samples from `cursor` on, and where the cursor ends.
unfoldable pub tile : ℕ → ℕ → ℕ → List ℕ → List HistoryGap × List OrderRange × ℕ
tile step to cursor [] = ([], [], cursor)
tile step to cursor (at ∷ ats) =
    let skipped = tile step to cursor ats in
    let taken = tile step to (at + step) ats in
    let missing : List HistoryGap =
      if ltb cursor at
      then record { from = cursor; to = at; reason = "missing_samples" } ∷ []
      else [] in
    if ltb at cursor || leb to at
    then skipped
    else (missing ++ taken.0, record { from = at; to = at + step } ∷ taken.1, taken.2)

-- The first `n`.
abbrev pub first_gaps : ℕ → List HistoryGap → List HistoryGap
first_gaps zero gs = []
first_gaps (suc n) [] = []
first_gaps (suc n) (g ∷ gs) = g ∷ first_gaps n gs

abbrev pub step_of : Dataset → ℕ
step_of d = max 60 d.resolution * second

-- `Request` may have widened the window below `from` in the meantime.
abbrev pub widened : Option ℕ → ℕ → Bool
widened none from = false
widened (some f) from = ltb f from

-- The window's end is reached. `To` is there while `From` is.
abbrev pub reached : ℕ → Option ℕ → Bool
reached next none = true
reached next (some to) = leb to next

-- How a window of history goes on after `last`.
unfoldable pub moved_on : ℕ → ℕ → ℕ → Dataset → Job → Job
moved_on now last from d c =
    let next = last + step_of d in
    if leb next from
    then record c { error = "历史接口未推进，停止重复补采"; disabled = true }
    else if widened c.from from
    then record c { next = now + 10 * second }
    else if reached next c.to
    then record c { completed = true }
    else record c { from = some next; next = now + 10 * second }

-- The part for a job with a window.
unfoldable pub history_succeeded : ℕ → ℕ → List ℕ → ℕ → ℕ → Dataset → Job → Job
unfolding tile sort_times moved_on
history_succeeded now last accepted from to d c =
    let r = tile (step_of d) to from (sort_times accepted) in
    moved_on now last from d (record c {
      gaps = first_gaps 128 (c.gaps ++ r.0);
      covered = merge_ranges (c.covered ++ r.1);
    })

abbrev pub windowed : ℕ → ℕ → List ℕ → Option ℕ → Option ℕ → Dataset → Job → Job
windowed now last accepted (some from) (some to) d c =
    history_succeeded now last accepted from to d c
windowed now last accepted _ _ d c = record c { completed = true }

-- The whole branch: `j` is the job as it was started, `c` as it is now.
unfoldable pub succeeded_job : List Dataset → ℕ → ℕ → ℕ → List ℕ → Job → Job → Job
unfolding live_next history_succeeded
succeeded_job all now fetched last accepted j c =
    let d = j.dataset in
    let cleared = record c {
      in_flight = false;
      error = "";
      error_kind = "";
      failures = 0;
      last_success = some fetched;
      contract_status = if d.contract then "verified" else c.contract_status;
    } in
    if is_live j.mode
    then record cleared { next = live_next all d now c.next }
    else windowed now last accepted j.from j.to d cleared

unfoldable pub run_succeeded : List Dataset → ℕ → ℕ → ℕ → List ℕ → Job → Scheduler → Scheduler
unfolding succeeded_job
run_succeeded all now fetched last accepted j s =
    complete j.id (succeeded_job all now fetched last accepted j) s
