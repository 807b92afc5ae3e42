-- ===== src/Scheduler/Success/Progress.antt =====
-- When a job that succeeded goes on.
use tidal_crypto_intelligenc.Base.{
  ℕ, zero, suc, ◌+◌, ◌-◌, ◌*◌, ◌<◌, ◌≡◌, ◌⊎◌, inl, inr, true, Option, none, some, List, arith,
  Bool-cases, second, minute, not, ◌||◌, ◌&&◌, str_eq,
}
use tidal_crypto_intelligenc.Scheduler.Job.{
  Dataset, Job, book_flow_collection, core_book, minute_foot,
}
use tidal_crypto_intelligenc.Scheduler.Success.{
  catch_up, phase, core_offset, core_next, or_core, book_index, book_flow_next, next_etf, or_else,
  live_next, moved_on, widened,
}

catch_up_after :
    (fuel period now next : ℕ)
    → 0 < period
    → now < next + fuel
    → now < catch_up fuel period now next
unfolding catch_up
catch_up_after zero period now next h k = omega arith
catch_up_after (suc fuel) period now next h k =
    let more = catch_up_after fuel period now (next + period) h (omega arith) in ground arith

minute-phase_after : (offset now : ℕ) → now < phase minute offset now
minute-phase_after offset now = ground arith

book_phase_after : (offset now : ℕ) → now < phase (4 * minute) offset now
book_phase_after offset now = ground arith

-- The time is after `now`, if there is one.
abbrev Later : ℕ → Option ℕ → Type 0
Later now none = Unit
Later now (some t) = now < t

core_next-Later : (d : Dataset) (now : ℕ) → Later now (core_next d now)
core_next-Later d now =
    elim (Bool-cases (
      not (str_eq d.collection book_flow_collection) || not (core_book d) && not (minute_foot d))) [
        | inl e ↦ rw e tt
        | inr e ↦ rw e (minute-phase_after (core_offset d) now)
      ]

or_core-Later : (d : Dataset) (now : ℕ) (o : Option ℕ) → Later now (or_core d now o)
or_core-Later d now none = core_next-Later d now
or_core-Later d now (some n) = book_phase_after ((12 + n * 30) * second) now

book_flow_next-Later :
    (all : List Dataset) (d : Dataset) (now : ℕ) → Later now (book_flow_next all d now)
unfolding book_flow_next
book_flow_next-Later all d now =
    elim (Bool-cases
      (str_eq d.collection book_flow_collection && str_eq d.kind "book" && not (core_book d))) [
        | inl e ↦ rw e (or_core-Later d now (book_index d.id all 0))
        | inr e ↦ rw e (core_next-Later d now)
      ]

next_etf_after : (now : ℕ) → now < next_etf now
unfolding next_etf
next_etf_after now = ground arith

or_else-Later : (now t : ℕ) (o : Option ℕ) → Later now o → now < t → now < or_else o t
or_else-Later now t none h k = k
or_else-Later now t (some s) h k = h

-- After a success a live job that refreshes at all is due in the future: the moves allowed are
-- enough, and the fixed phases and the daily time are after `now` too.
pub live_next_after :
    (all : List Dataset) (d : Dataset) (now next : ℕ)
    → 0 < d.refresh
    → now < live_next all d now next
unfolding live_next
live_next_after all d now next h =
    let caught =
      catch_up_after (now - next + 1) (d.refresh * second) now next (omega arith) (omega arith) in
    elim (Bool-cases (str_eq d.kind "etf")) [
      | inl e ↦ rw e (next_etf_after now)
      | inr e ↦
          rw e
            (or_else-Later now _ (book_flow_next all d now) (book_flow_next-Later all d now) caught)
    ]

-- The window's start is after `from`, and before the window's end.
abbrev pub Between : ℕ → Option ℕ → Option ℕ → Type 0
Between from (some f) (some to) = (from < f) × (f < to)
Between from _ _ = ⊥

-- A page of history that succeeded closes the job, completes it, or moves its window's start on,
-- unless the window was widened while the page was out.
pub moved_on_progress :
    (now last from : ℕ) (d : Dataset) (c : Job)
    → let r = moved_on now last from d c in
      (r.disabled ≡ true)
      ⊎ ((r.completed ≡ true) ⊎ ((widened c.from from ≡ true) ⊎ Between from r.from r.to))
unfolding moved_on
moved_on_progress now last from d c = ground arith
