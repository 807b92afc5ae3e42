-- ===== src/Paper/Heartbeat/Recovery.antt =====
-- When a gap ends, and the counts of time.
use mathlib.Core.Path.{subst}
use tidal_crypto_intelligenc.Base.{
  ℕ, ◌+◌, ◌*◌, ◌≤◌, ◌≡◌, ◌⊎◌, inl, inr, refl, sym, ◌∙◌, ap, Bool, true, false, List, [], ◌∷◌, ◌++◌,
  All, arith, second, is_zero,
}
use tidal_crypto_intelligenc.Paper.Decimal.{DecimalOps}
use tidal_crypto_intelligenc.Paper.Types.{State}
use tidal_crypto_intelligenc.Paper.Store.{Store}
use tidal_crypto_intelligenc.Paper.Heartbeat.{good, recover, paused, count_time, sampled, beat}

module _ (D : DecimalOps) where
  -- The fields of the state that the clocks depend on.
  recover_gap :
      (fine : Bool) (now : ℕ) (s : State D)
      → (recover D fine now s).gap ≡ false
      → (s.gap ≡ true)
      → (fine ≡ true) × ((recover D fine now s).good_since + 30 * second ≤ now)
  unfolding recover
  recover_gap fine now s h g = ground arith

  recover_counts :
      (fine : Bool) (now : ℕ) (s : State D)
      → ((recover D fine now s).covered_seconds ≡ s.covered_seconds)
        × ((recover D fine now s).observed_seconds ≡ s.observed_seconds)
  unfolding recover
  recover_counts fine now s = ground arith

  paused_keeps :
      (p : Store D) (b : Bool) (s : State D)
      → ((paused D p b s).gap ≡ s.gap)
        × ((paused D p b s).good_since ≡ s.good_since)
        × ((paused D p b s).covered_seconds ≡ s.covered_seconds)
        × ((paused D p b s).observed_seconds ≡ s.observed_seconds)
  unfolding paused
  paused_keeps p b s = ground arith

  count_time_keeps :
      (p : Store D) (fine : Bool) (now : ℕ) (s : State D)
      → ((count_time D p fine now s).gap ≡ s.gap)
        × ((count_time D p fine now s).good_since ≡ s.good_since)
        × (s.covered_seconds ≤ s.observed_seconds
            → (count_time D p fine now s).covered_seconds
              ≤ (count_time D p fine now s).observed_seconds)
  unfolding count_time
  count_time_keeps p fine now s = ground arith

  sampled_keeps :
      (p : Store D) (fine b : Bool) (now : ℕ) (s : State D)
      → ((sampled D p fine b now s).0.gap ≡ s.gap)
        × ((sampled D p fine b now s).0.good_since ≡ s.good_since)
        × ((sampled D p fine b now s).0.covered_seconds ≡ s.covered_seconds)
        × ((sampled D p fine b now s).0.observed_seconds ≡ s.observed_seconds)
  unfolding sampled
  sampled_keeps p fine b now s = ground arith

  beat-recover :
      (p : Store D) (was protected : Bool) (now : ℕ) (s : State D)
      → let after = (beat D p was protected now s).0 in
        let one = recover D (good D p now) now s in
        (after.gap ≡ one.gap) × (after.good_since ≡ one.good_since)
  unfolding beat
  beat-recover p was protected now s =
      let fine = good D p now in
      let one = recover D fine now s in
      let two = paused D p protected one in
      let three = count_time D p fine now two in
      ground (
        arith,
        paused_keeps p protected one,
        count_time_keeps p fine now two,
        sampled_keeps p fine protected now three,
      )

  -- A heartbeat's arguments.
  pub record Beat : Type 0 where
    pub store : Store D
    pub was : Bool
    pub protected : Bool
    pub now : ℕ

  -- The quote and the mark were fresh at the beat.
  abbrev pub Fine : Beat → Type 0
  Fine b = good D b.store b.now ≡ true

  -- States that heartbeats lead to, the last beat first. Between them the state changes as it may:
  -- every other operation keeps `GoodSince` or clears it.
  pub data Beaten : List Beat → State D → Type 0 where
    cleared : (s : State D) → is_zero s.good_since ≡ true → Beaten [] s
    beaten :
        {bs : List Beat} {s : State D} (b : Beat)
        → Beaten bs s
        → Beaten (b ∷ bs) (beat D b.store b.was b.protected b.now s).0
    changed :
        {bs : List Beat} {s : State D} (u : State D)
        → Beaten bs s
        → (u.good_since ≡ s.good_since) ⊎ (is_zero u.good_since ≡ true)
        → Beaten bs u

  -- The last beats, from one at `since` on, were all good.
  pub record GoodFrom (since : ℕ) (bs : List Beat) : Type 0 where
    pub latest : List Beat
    pub first : Beat
    pub before : List Beat
    pub split : bs ≡ latest ++ first ∷ before
    pub all_fine : All Fine latest
    pub first_fine : Fine first
    pub at : first.now ≡ since

  abbrev Since : List Beat → ℕ → Type 0
  Since bs since = (is_zero since ≡ true) ⊎ GoodFrom since bs

  one_more : (b : Beat) (bs : List Beat) (t : ℕ) → Fine b → GoodFrom t bs → GoodFrom t (b ∷ bs)
  one_more b bs t f g = record {
    latest = b ∷ g.latest;
    first = g.first;
    before = g.before;
    split = ap (◌∷◌ b) g.split;
    all_fine = (f, g.all_fine);
    first_fine = g.first_fine;
    at = g.at;
  }

  recover-since :
      (now : ℕ) (s : State D) (fine : Bool)
      → ((fine ≡ false) × (is_zero (recover D fine now s).good_since ≡ true))
        ⊎ ((fine ≡ true)
            × (((is_zero s.good_since ≡ true) × ((recover D fine now s).good_since ≡ now))
                ⊎ ((is_zero s.good_since ≡ false)
                    × ((recover D fine now s).good_since ≡ s.good_since))))
  unfolding recover
  recover-since now s fine = ground arith

  beat-Since :
      (b : Beat) (bs : List Beat) (s : State D)
      → Since bs s.good_since
      → Since (b ∷ bs) (beat D b.store b.was b.protected b.now s).0.good_since
  beat-Since b bs s h =
      let (_, e) = beat-recover b.store b.was b.protected b.now s in
      subst (Since (b ∷ bs)) (sym e) (elim (recover-since b.now s (good D b.store b.now)) [
        | inl (_, z) ↦ inl z
        | inr (f, inl (_, k)) ↦ inr (record {
          latest = [];
          first = b;
          before = bs;
          split = refl;
          all_fine = tt;
          first_fine = f;
          at = sym k;
        })
        | inr (f, inr (n, k)) ↦
            subst (Since (b ∷ bs)) (sym k)
              (elim h [ inl z ↦ inl z | inr g ↦ inr (one_more b bs s.good_since f g) ])
      ])

  Beaten-Since : {bs : List Beat} {s : State D} → Beaten bs s → Since bs s.good_since
  Beaten-Since (cleared s z) = inl z
  Beaten-Since (beaten {bs} {s} b r) = beat-Since b bs s (Beaten-Since r)
  Beaten-Since (changed {bs} {s} u r (inl e)) = subst (Since bs) (sym e) (Beaten-Since r)
  Beaten-Since (changed u r (inr z)) = inl z

  too_early : (now : ℕ) → ¬ (now + 30 * second ≤ now)
  too_early now = omega arith

  -- However a state with a gap was reached from one whose `GoodSince` is clear: if a heartbeat ends
  -- the gap, the quote and the mark are fresh at it and were at every heartbeat back to one at least
  -- 30 seconds before it.
  pub beat_recovers :
      {bs : List Beat} {s : State D} (b : Beat)
      → Beaten bs s
      → s.gap ≡ true
      → (beat D b.store b.was b.protected b.now s).0.gap ≡ false
      → (since : ℕ) × (since + 30 * second ≤ b.now) × Fine b × GoodFrom since bs
  beat_recovers {bs} {s} b r g h =
      let (e, _) = beat-recover b.store b.was b.protected b.now s in
      let (fine, long) = recover_gap (good D b.store b.now) b.now s (sym e ∙ h) g in
      elim (recover-since b.now s (good D b.store b.now)) [
        | inl (f, _) ↦ cc (f, fine)
        | inr (f, inl (_, k)) ↦ absurd (too_early b.now (rw k at long))
        | inr (f, inr (n, k)) ↦ elim (Beaten-Since r) [
          | inl z ↦ cc (z, n)
          | inr q ↦ (s.good_since, rw k at long, fine, q)
        ]
      ]

  -- Covered time never exceeds observed time.
  pub beat_covered :
      (p : Store D) (was protected : Bool) (now : ℕ) (s : State D)
      → s.covered_seconds ≤ s.observed_seconds
      → let after = (beat D p was protected now s).0 in
        after.covered_seconds ≤ after.observed_seconds
  unfolding beat
  beat_covered p was protected now s h =
      let fine = good D p now in
      let one = recover D fine now s in
      let two = paused D p protected one in
      let three = count_time D p fine now two in
      ground (
        arith,
        recover_counts fine now s,
        paused_keeps p protected one,
        count_time_keeps p fine now two,
        sampled_keeps p fine protected now three,
      )
