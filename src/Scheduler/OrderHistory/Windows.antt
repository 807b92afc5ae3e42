-- ===== src/Scheduler/OrderHistory/Windows.antt =====
-- No window of the order history is lost.
use tidal_crypto_intelligenc.Base.{
  ℕ, ◌+◌, ◌*◌, ◌/◌, ◌≤◌, ◌<◌, ◌≡◌, ◌↔◌, ◌⊎◌, inl, inr, refl, Bool, true, false, Option, none, some,
  List, [], ◌∷◌, String, arith, length, millisecond, max, Option-cases,
}
use tidal_crypto_intelligenc.Scheduler.Ranges.{OrderRange}
use tidal_crypto_intelligenc.Scheduler.Ranges.Union.{Covers}
use tidal_crypto_intelligenc.Scheduler.Job.{Dataset, Job, lookup}
use tidal_crypto_intelligenc.Scheduler.Dispatch.{Scheduler}
use tidal_crypto_intelligenc.Scheduler.Dispatch.Slots.{IsConsistent}
use tidal_crypto_intelligenc.Scheduler.Completion.{RunError}
use tidal_crypto_intelligenc.Scheduler.Completion.Answers.{complete-IsConsistent}
use tidal_crypto_intelligenc.Scheduler.OrderHistory.{
  Page, saturated, page_error, split, advance, order_succeeded, order_outcome, order_answered,
  windows, state_mismatch, run_order_history,
}

-- Halving a window of two milliseconds or more: both halves have instants, and together they hold
-- the window's.
pub split_exact :
    (r : OrderRange)
    → r.from + 2 * millisecond ≤ r.to
    → let h = split r in
      (h.0.from < h.0.to)
      × (h.1.from < h.1.to)
      × ((t : ℕ) → Covers (h.0 ∷ h.1 ∷ []) t ↔ Covers (r ∷ []) t)
unfolding split
split_exact r h = (omega arith, omega arith, λ t. ground arith)

-- A window whose ends lie in adjacent milliseconds is not made smaller: its second half holds all of
-- it, and the first half has no instant.
pub split_adjacent :
    (r : OrderRange)
    → r.to / millisecond ≡ r.from / millisecond + 1
    → let h = split r in (h.1.from ≤ r.from) × (h.1.to ≡ r.to) × (h.0.to ≤ h.0.from)
unfolding split
split_adjacent r h = (omega arith, refl, omega arith)

split-Covers :
    (r : OrderRange) (t : ℕ) → r.from ≤ t → t < r.to → Covers ((split r).0 ∷ (split r).1 ∷ []) t
unfolding split
split-Covers r t a b = ground arith

-- The instant lies in the page's window, and the page was good: either all of the window was stored,
-- or a gap was counted.
abbrev pub Settled : OrderRange → ℕ → Page → ℕ → ℕ → Type 0
Settled r t p before after =
    (r.from ≤ t) × (t < r.to) × (page_error r p ≡ none) × ((saturated p ≡ false) ⊎ (before < after))

advance_accounts :
    (r : OrderRange) (rest : List OrderRange) (full : Bool) (c : Job) (t : ℕ)
    → Covers (r ∷ rest) t
    → Covers (advance r rest full c).order_ranges t
      ⊎ ((r.from ≤ t)
          × (t < r.to)
          × ((full ≡ false) ⊎ (c.order_gaps < (advance r rest full c).order_gaps)))
unfolding advance
advance_accounts r rest full c t (inr k) = ground arith
advance_accounts r rest false c t (inl k) = inr (k.0, k.1, inl refl)
advance_accounts r rest true c t (inl k) = ground (arith, split-Covers r t k.0 k.1)

advance_gaps :
    (r : OrderRange) (rest : List OrderRange) (full : Bool) (c : Job)
    → c.order_gaps ≤ (advance r rest full c).order_gaps
unfolding advance
advance_gaps r rest full c = ground arith

succeeded_accounts :
    (fetched : ℕ) (d : Dataset) (r : OrderRange) (rest : List OrderRange) (mismatch full : Bool)
    (c : Job) (t : ℕ)
    → Covers (r ∷ rest) t
    → Covers (order_succeeded fetched d r rest mismatch full c).order_ranges t
      ⊎ ((r.from ≤ t)
          × (t < r.to)
          × ((full ≡ false)
              ⊎ (c.order_gaps < (order_succeeded fetched d r rest mismatch full c).order_gaps)))
unfolding order_succeeded
succeeded_accounts fetched d r rest true full c t k =
    ground (arith, advance_accounts r rest full _ t k)
succeeded_accounts fetched d r rest false full c t k =
    ground (arith, advance_accounts r rest full _ t k)

-- Every instant of the windows that a page was asked for is afterwards still in a window of the job,
-- or lies in the first window, whose page was good and was either stored whole or counted as a gap.
pub order_answered_accounts :
    (now fetched : ℕ) (asked : String) (j c : Job) (p : Page) (t : ℕ)
    → let w = windows now j.order_through j.order_ranges j.order_gaps in
      let after = order_answered now fetched asked j p c in
      Covers (w.0 ∷ w.1) t
      → Covers after.order_ranges t ⊎ Settled w.0 t p (max c.order_gaps w.2) after.order_gaps
unfolding order_answered
order_answered_accounts now fetched asked j c p t k =
    let w = windows now j.order_through j.order_ranges j.order_gaps in
    elim (Option-cases (page_error w.0 p)) [
      | inr (e, q) ↦ rw q (inl k)
      | inl q ↦
          let noted = record c { order_gaps = max c.order_gaps w.2; in_flight = false } in
          rw q
            (elim (succeeded_accounts fetched j.dataset w.0 w.1 (state_mismatch asked p.rows)
              (saturated p) noted t k) [ inl h ↦ inl h | inr (a, b, h) ↦ inr (a, b, refl, h) ])
    ]

order_outcome_few :
    (o : Option RunError) (fetched : ℕ) (d : Dataset) (r : OrderRange) (rest : List OrderRange)
    (mismatch full : Bool) (c : Job)
    → length rest ≤ 63
    → length (order_outcome o fetched d r rest mismatch full c).order_ranges ≤ 64
unfolding order_succeeded advance
order_outcome_few (some e) fetched d r rest mismatch full c h = omega arith
order_outcome_few none fetched d r rest true full c h = ground arith
order_outcome_few none fetched d r rest false full c h = ground arith

windows_few :
    (now : ℕ) (through : Option ℕ) (rs : List OrderRange) (gaps : ℕ)
    → length rs ≤ 64
    → length (windows now through rs gaps).1 ≤ 63
windows_few now through [] gaps h = omega arith
windows_few now through (r ∷ rs) gaps h = omega arith

-- A job keeps 64 windows at most: a longer list is not split further.
pub order_answered_bounded :
    (now fetched : ℕ) (asked : String) (j c : Job) (p : Page)
    → length j.order_ranges ≤ 64
    → length (order_answered now fetched asked j p c).order_ranges ≤ 64
unfolding order_answered
order_answered_bounded now fetched asked j c p h =
    let w = windows now j.order_through j.order_ranges j.order_gaps in
    order_outcome_few (page_error w.0 p) fetched j.dataset w.0 w.1 _ _ _
      (windows_few now j.order_through j.order_ranges j.order_gaps h)

order_outcome_id :
    (o : Option RunError) (fetched : ℕ) (d : Dataset) (r : OrderRange) (rest : List OrderRange)
    (mismatch full : Bool) (c : Job)
    → ((order_outcome o fetched d r rest mismatch full c).id ≡ c.id)
      × ((order_outcome o fetched d r rest mismatch full c).in_flight ≡ c.in_flight)
unfolding order_succeeded advance
order_outcome_id (some e) fetched d r rest mismatch full c = (refl, refl)
order_outcome_id none fetched d r rest true full c = ground arith
order_outcome_id none fetched d r rest false full c = ground arith

-- The answer to a page keeps the scheduler's books.
pub run_order_history-IsConsistent :
    (now fetched : ℕ) (asked : String) (j : Job) (p : Page) (s : Scheduler) (c : Job)
    → IsConsistent s
    → lookup j.id s.jobs ≡ some c
    → c.in_flight ≡ true
    → IsConsistent (run_order_history now fetched asked j p s)
unfolding run_order_history order_answered
run_order_history-IsConsistent now fetched asked j p s c k found busy =
    let w = windows now j.order_through j.order_ranges j.order_gaps in
    let kept = order_outcome_id (page_error w.0 p) fetched j.dataset w.0 w.1 in
    let done =
      complete-IsConsistent j.id (order_answered now fetched asked j p) s c (λ x. (kept _ _ _).0)
        (λ x. (kept _ _ _).1) k found busy in
    record { distinct = done.distinct; counted = done.counted; bounded = done.bounded }
