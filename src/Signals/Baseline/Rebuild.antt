-- ===== src/Signals/Baseline/Rebuild.antt =====
-- The moved window against the rebuilt one.
use mathlib.Core.Path.{fun_ext}
use mathlib.Core.List.{append-nil}
use tidal_crypto_intelligenc.Base.{
  ℕ, zero, suc, ◌+◌, ◌-◌, ◌*◌, ◌≤◌, ◌≡◌, refl, sym, ap, ◌∙◌, Bool, true, false, leb, List, [], ◌∷◌,
  ◌++◌, All, All-append, minute, hour, arith, if-split,
}
use tidal_crypto_intelligenc.Base.Integers.{◌+ℤ◌}
use tidal_crypto_intelligenc.Study.Prices.{Floats, FloatLaws, five_minutes}
use tidal_crypto_intelligenc.Signals.{FlowBar, Bars, net, sum_bars}
use tidal_crypto_intelligenc.Signals.Baseline.{
  times, steps, sorted, sample, gathered, counted, dated, net_of, volume_of, percentile,
  baseline_from_bars,
}
use tidal_crypto_intelligenc.Signals.Baseline.Rolling.{
  started_on, empty, new_rolling_baseline, moved, moved_by, advance, result,
}
use tidal_crypto_intelligenc.Signals.Baseline.Sorted.{
  inserts, inserts-sorted, change_slide, length-sorted,
}
use tidal_crypto_intelligenc.Signals.Baseline.Windows.{
  times_last, steps_of, picks, picks-append, gathered_early,
}
use tidal_crypto_intelligenc.Signals.Baseline.Growth.{
  window, slid, moved_fields, rolling_ext, started_on-grown, marked_slide, tallied_slide,
}

module _ (F : Floats) (L : FloatLaws F) where
  open F use {Float}
  open L use {Number}

  sample-Number :
      (g : FlowBar → Float) (s : FlowBar × Bool)
      → ((b : FlowBar) → Number (g b))
      → All Number (sample F g s)
  sample-Number g (b, true) h = (h b, tt)
  sample-Number g (b, false) h = tt

  picks-Number :
      (g : FlowBar → Float) (bars : Bars) (n : ℕ) (es : List ℕ)
      → ((b : FlowBar) → Number (g b))
      → All Number (picks F g bars n es)
  picks-Number g bars n [] h = tt
  picks-Number g bars n (e ∷ es) h =
      All-append Number (sample F g (sum_bars bars e n)) (picks F g bars n es)
        (sample-Number g (sum_bars bars e n) h) (picks-Number g bars n es h)

  -- One list of samples, moved by a bar. The first sample is complete `j + 1` bars after `from`.
  slid-window :
      (g : FlowBar → Float) (bars : Bars) (from m n j k wait : ℕ)
      → ((b : FlowBar) → Number (g b))
      → m ≡ j + suc k
      → wait ≡ (j + 1) * five_minutes
      → slid F g
          (window F bars from m)
          n
          wait
          (inserts F (gathered F g bars n wait from (times m from)) [])
        ≡ inserts F
            (gathered F g bars n wait (from + five_minutes) (times m (from + five_minutes)))
            []
  slid-window g bars from m n j k wait h e w =
      let first = from + wait in
      let next = from + five_minutes + wait in
      let old =
        gathered_early F g bars n wait from j (suc k) m from e (omega arith) (omega arith) in
      let new =
        gathered_early F g bars n wait (from + five_minutes) j (suc k) m (from + five_minutes) e
          (omega arith) (omega arith) in
      let ys = picks F g bars n (times k (first + five_minutes)) in
      let fresh = sum_bars bars (from + m * five_minutes + five_minutes) n in
      let end : next + k * five_minutes ≡ from + m * five_minutes + five_minutes = omega arith in
      let tail : picks F g bars n (times (suc k) next) ≡ ys ++ sample F g fresh =
        ap (picks F g bars n) (times_last k next)
        ∙ picks-append F g bars n (times k next) ((next + k * five_minutes) ∷ [])
        ∙ ap
            (λ u. picks F g bars n (times k u) ++ picks F g bars n ((next + k * five_minutes) ∷ []))
            (omega arith)
        ∙ ap (λ u. ys ++ picks F g bars n (u ∷ [])) end
        ∙ ap (λ l. ys ++ l) (append-nil (sample F g fresh)) in
      ap (λ l. slid F g (window F bars from m) n wait (inserts F l [])) old
      ∙ change_slide F L g (sum_bars bars first n) fresh ys h
          (picks-Number g bars n (times k (first + five_minutes)) h)
      ∙ ap (λ l. inserts F l []) (sym (new ∙ tail))

  -- One step is the window a bar later.
  moved_window :
      (bars : Bars) (from p : ℕ)
      → 11 ≤ p
      → moved F (window F bars from (suc p)) ≡ window F bars (from + five_minutes) (suc p)
  moved_window bars from p h =
      let r = window F bars from (suc p) in
      let ts = times p (from + five_minutes) in
      let next = from + five_minutes in
      let last : ts ++ r.to ∷ [] ≡ times (suc p) next =
        ap (λ u. ts ++ u ∷ []) (omega arith) ∙ sym (times_last p next) in
      let nets : (b : FlowBar) → Number (net_of F b) = λ b. L.of_int-Number (net b) in
      let volumes : (b : FlowBar) → Number (volume_of F b) =
        λ b. L.of_int-Number (b.buy +ℤ b.sell) in
      moved_fields F r
      ∙ rolling_ext F (record r { from = next; to = r.to + five_minutes }) _ _ _ _ _ _ _ _ _ _ _ _
          (marked_slide F bars from r.to ts ∙ ap (dated bars) last)
          (tallied_slide F bars from r.to ts ∙ ap (counted bars) last)
          (slid-window (net_of F) bars from (suc p) 3 2 (p - 2) (15 * minute) nets (omega arith)
            (omega arith))
          (slid-window (volume_of F) bars from (suc p) 3 2 (p - 2) (15 * minute) volumes
            (omega arith) (omega arith))
          (slid-window (net_of F) bars from (suc p) 12 11 (p - 11) hour nets (omega arith)
            (omega arith))
          (slid-window (volume_of F) bars from (suc p) 12 11 (p - 11) hour volumes (omega arith)
            (omega arith))
      ∙ ap (λ u. record (window F bars next (suc p)) { to = u }) (omega arith)

  moved_by-window :
      (bars : Bars) (from p m : ℕ)
      → 11 ≤ p
      → moved_by F m (window F bars from (suc p)) ≡ window F bars (from + m * five_minutes) (suc p)
  unfolding moved_by
  moved_by-window bars from p zero h = ap (λ u. window F bars u (suc p)) (omega arith)
  moved_by-window bars from p (suc m) h =
      ap (moved_by F m) (moved_window bars from p h)
      ∙ moved_by-window bars (from + five_minutes) p m h
      ∙ ap (λ u. window F bars u (suc p)) (omega arith)

  new_rolling_window :
      (bars : Bars) (from n : ℕ)
      → new_rolling_baseline F bars from (from + n * five_minutes) ≡ window F bars from n
  unfolding new_rolling_baseline
  new_rolling_window bars from n =
      let to = from + n * five_minutes in
      ap (λ i. started_on F (empty F bars from to) (times i from)) (steps_of n from)
      ∙ started_on-grown F (empty F bars from to) (times n from)
      ∙ rolling_ext F (window F bars from n) _ _ _ _ _ _ _ _ _ _ _ _ (fun_ext (λ d. omega arith))
          (omega arith) refl refl refl refl

  gathered-Number :
      (g : FlowBar → Float) (bars : Bars) (n wait from : ℕ) (ts : List ℕ)
      → ((b : FlowBar) → Number (g b))
      → All Number (gathered F g bars n wait from ts)
  gathered-Number g bars n wait from [] h = tt
  gathered-Number g bars n wait from (t ∷ ts) h =
      let rest = gathered-Number g bars n wait from ts h in
      let s = sum_bars bars (t + five_minutes) n in
      if-split (λ (l : List Float). All Number l) (leb wait (t + five_minutes - from)) _ _
        (λ e. All-append Number (sample F g s) _ (sample-Number g s h) rest) (λ e. rest)

  gathered-sorted :
      (g : FlowBar → Float) (bars : Bars) (n wait from : ℕ) (ts : List ℕ)
      → ((b : FlowBar) → Number (g b))
      → inserts F (gathered F g bars n wait from ts) []
        ≡ sorted F (gathered F g bars n wait from ts)
  gathered-sorted g bars n wait from ts h =
      inserts-sorted F L (gathered F g bars n wait from ts)
        (gathered-Number g bars n wait from ts h)

  -- What a window says is what `baselineFromBars` says of it.
  result_window :
      (bars : Bars) (from n now : ℕ)
      → result F (window F bars from n) now
        ≡ baseline_from_bars F bars from (from + n * five_minutes) now
  unfolding result baseline_from_bars percentile
  result_window bars from n now =
      let nets : (b : FlowBar) → Number (net_of F b) = λ b. L.of_int-Number (net b) in
      let volumes : (b : FlowBar) → Number (volume_of F b) =
        λ b. L.of_int-Number (b.buy +ℤ b.sell) in
      let ts = times n from in
      simp (
        steps_of n from,
        gathered-sorted (net_of F) bars 3 (15 * minute) from ts nets,
        gathered-sorted (volume_of F) bars 3 (15 * minute) from ts volumes,
        gathered-sorted (net_of F) bars 12 hour from ts nets,
        gathered-sorted (volume_of F) bars 12 hour from ts volumes,
        length-sorted F,
      )

  -- A rolling baseline of at least an hour's window, moved by any number of bars, says of the window
  -- that it has reached what `baselineFromBars` computes of it from all bars: every threshold,
  -- median, sample count, coverage, number of dates and the validity. The conversion of integers to
  -- floats gives numbers in a total order.
  pub advance_rebuilds :
      (bars : Bars) (from n m now : ℕ)
      → 12 ≤ n
      → let start = new_rolling_baseline F bars from (from + n * five_minutes) in
        result F (advance F start (from + (n + m) * five_minutes)) now
        ≡ baseline_from_bars F bars (from + m * five_minutes) (from + (n + m) * five_minutes) now
  unfolding advance
  advance_rebuilds bars from n m now h =
      let next = from + m * five_minutes in
      let end = from + (n + m) * five_minutes in
      let w = window F bars from n in
      let count : steps (from + n * five_minutes) end ≡ m = omega arith in
      let size : n ≡ suc (n - 1) = omega arith in
      ap (λ r. result F (moved_by F (steps r.to end) r) now) (new_rolling_window bars from n)
      ∙ ap (λ i. result F (moved_by F i w) now) count
      ∙ ap (λ i. result F (moved_by F m (window F bars from i)) now) size
      ∙ ap (λ r. result F r now) (moved_by-window bars from (n - 1) m (omega arith))
      ∙ result_window bars next (suc (n - 1)) now
      ∙ ap (λ u. baseline_from_bars F bars next u now) (omega arith)
