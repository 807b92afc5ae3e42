-- ===== src/Signals/Baseline/Growth.antt =====
-- The rolling baseline's operations as one record each, and the state that building it leaves.
use mathlib.Core.Path.{fun_ext}
use tidal_crypto_intelligenc.Base.{
  ℕ, ◌+◌, ◌-◌, ◌*◌, ◌≡◌, refl, ap, ◌∙◌, Bool, true, false, leb, ◌==◌, if◌then◌else◌, List, [], ◌∷◌,
  ◌++◌, is_some, minute, hour, unix, arith, Bool-cases, ==_iff, inl, inr,
}
use tidal_crypto_intelligenc.Study.Prices.{Floats, five_minutes}
use tidal_crypto_intelligenc.Signals.{FlowBar, Bars, sum_bars}
use tidal_crypto_intelligenc.Signals.Accumulator.{put}
use tidal_crypto_intelligenc.Signals.Baseline.{
  times, day, RollingBaseline, sample, gathered, counted, dated, net_of, volume_of,
}
use tidal_crypto_intelligenc.Signals.Baseline.Rolling.{
  bar, feature, featured, started, started_on, moved,
}
use tidal_crypto_intelligenc.Signals.Baseline.Sorted.{inserts, inserts-append, change, change_add}
use tidal_crypto_intelligenc.Signals.Baseline.Windows.{==_refl, counted-append, dated-append}

module _ (F : Floats) where
  open F use {Float}

  -- The rolling baseline of a window of `n` bars.
  abbrev pub window : Bars → ℕ → ℕ → RollingBaseline F
  window bars from n = record {
    bars = bars;
    from = from;
    to = from + n * five_minutes;
    dates = dated bars (times n from);
    valid = counted bars (times n from);
    net15 = inserts F (gathered F (net_of F) bars 3 (15 * minute) from (times n from)) [];
    vol15 = inserts F (gathered F (volume_of F) bars 3 (15 * minute) from (times n from)) [];
    net60 = inserts F (gathered F (net_of F) bars 12 hour from (times n from)) [];
    vol60 = inserts F (gathered F (volume_of F) bars 12 hour from (times n from)) [];
  }

  -- What the two operations do, as one record each.
  abbrev pub marked : Bars → ℕ → (ℕ → ℕ) → Bool → ℕ → ℕ
  marked bars t dates adding =
      if is_some (bars (unix t))
      then put dates (day t) (if adding then dates (day t) + 1 else dates (day t) - 1)
      else dates

  abbrev pub tallied : Bars → ℕ → ℕ → Bool → ℕ
  tallied bars t valid adding =
      if is_some (bars (unix t)) then if adding then valid + 1 else valid - 1 else valid

  pub bar_fields :
      (r : RollingBaseline F) (at : ℕ) (adding : Bool)
      → bar F r at adding ≡ record r {
        valid = tallied r.bars at r.valid adding;
        dates = marked r.bars at r.dates adding;
      }
  unfolding bar
  bar_fields r at adding = elim (Bool-cases (is_some (r.bars (unix at)))) [
    | inl e ↦ elim (Bool-cases adding) [ inl a ↦ simp (e, a) | inr a ↦ simp (e, a) ]
    | inr e ↦ simp e
  ]

  pub feature_15 :
      (r : RollingBaseline F) (end : ℕ) (adding : Bool)
      → feature F r end 3 adding ≡ record r {
        net15 = change F (net_of F) (sum_bars r.bars end 3) adding r.net15;
        vol15 = change F (volume_of F) (sum_bars r.bars end 3) adding r.vol15;
      }
  unfolding feature
  feature_15 r end adding = go (sum_bars r.bars end 3)
    where
      go :
          (s : FlowBar × Bool)
          → featured F r 3 adding s ≡ record r {
            net15 = change F (net_of F) s adding r.net15;
            vol15 = change F (volume_of F) s adding r.vol15;
          }
      go (b, true) = refl
      go (b, false) = refl

  pub feature_60 :
      (r : RollingBaseline F) (end : ℕ) (adding : Bool)
      → feature F r end 12 adding ≡ record r {
        net60 = change F (net_of F) (sum_bars r.bars end 12) adding r.net60;
        vol60 = change F (volume_of F) (sum_bars r.bars end 12) adding r.vol60;
      }
  unfolding feature
  feature_60 r end adding = go (sum_bars r.bars end 12)
    where
      go :
          (s : FlowBar × Bool)
          → featured F r 12 adding s ≡ record r {
            net60 = change F (net_of F) s adding r.net60;
            vol60 = change F (volume_of F) s adding r.vol60;
          }
      go (b, true) = refl
      go (b, false) = refl

  abbrev pub slid : (FlowBar → Float) → RollingBaseline F → ℕ → ℕ → List Float → List Float
  slid g r n wait l =
      change F g (sum_bars r.bars (r.to + five_minutes) n) true
        (change F g (sum_bars r.bars (r.from + wait) n) false l)

  pub moved_fields :
      (r : RollingBaseline F)
      → moved F r ≡ record {
        bars = r.bars;
        from = r.from + five_minutes;
        to = r.to + five_minutes;
        dates = marked r.bars r.to (marked r.bars r.from r.dates false) true;
        valid = tallied r.bars r.to (tallied r.bars r.from r.valid false) true;
        net15 = slid (net_of F) r 3 (15 * minute) r.net15;
        vol15 = slid (volume_of F) r 3 (15 * minute) r.vol15;
        net60 = slid (net_of F) r 12 hour r.net60;
        vol60 = slid (volume_of F) r 12 hour r.vol60;
      }
  moved_fields r = simp (bar_fields, feature_15, feature_60)

  abbrev pub waited : (FlowBar → Float) → RollingBaseline F → ℕ → ℕ → ℕ → List Float → List Float
  waited g r t n wait l =
      if leb wait (t + five_minutes - r.from)
      then change F g (sum_bars r.bars (t + five_minutes) n) true l
      else l

  pub started_fields :
      (r : RollingBaseline F) (t : ℕ)
      → started F r t ≡ record r {
        dates = marked r.bars t r.dates true;
        valid = tallied r.bars t r.valid true;
        net15 = waited (net_of F) r t 3 (15 * minute) r.net15;
        vol15 = waited (volume_of F) r t 3 (15 * minute) r.vol15;
        net60 = waited (net_of F) r t 12 hour r.net60;
        vol60 = waited (volume_of F) r t 12 hour r.vol60;
      }
  started_fields r t =
      let e = bar_fields r t true in
      elim (Bool-cases (leb (15 * minute) (t + five_minutes - r.from))) [
        | inl a ↦ elim (Bool-cases (leb hour (t + five_minutes - r.from))) [
          | inl b ↦ simp (a, b, e, feature_15, feature_60)
          | inr b ↦ simp (a, b, e, feature_15)
        ]
        | inr a ↦ elim (Bool-cases (leb hour (t + five_minutes - r.from))) [
          | inl b ↦ simp (a, b, e, feature_60)
          | inr b ↦ simp (a, b, e)
        ]
      ]

  -- A rolling baseline after some bars of its window.
  abbrev pub grown_by : RollingBaseline F → List ℕ → RollingBaseline F
  grown_by r ts = record r {
    dates = λ d. r.dates d + dated r.bars ts d;
    valid = r.valid + counted r.bars ts;
    net15 = inserts F (gathered F (net_of F) r.bars 3 (15 * minute) r.from ts) r.net15;
    vol15 = inserts F (gathered F (volume_of F) r.bars 3 (15 * minute) r.from ts) r.vol15;
    net60 = inserts F (gathered F (net_of F) r.bars 12 hour r.from ts) r.net60;
    vol60 = inserts F (gathered F (volume_of F) r.bars 12 hour r.from ts) r.vol60;
  }

  pub rolling_ext :
      (r : RollingBaseline F) (d d' : ℕ → ℕ) (v v' : ℕ) (a a' b b' c c' e e' : List Float)
      → d ≡ d'
      → v ≡ v'
      → a ≡ a'
      → b ≡ b'
      → c ≡ c'
      → e ≡ e'
      → (record r { dates = d; valid = v; net15 = a; vol15 = b; net60 = c; vol60 = e })
        ≡ record r { dates = d'; valid = v'; net15 = a'; vol15 = b'; net60 = c'; vol60 = e' }
  rolling_ext r d d' v v' a a' b b' c c' e e' hd hv ha hb hc he = rw (hd, hv, ha, hb, hc, he)

  pub waited_gathered :
      (g : FlowBar → Float) (r : RollingBaseline F) (t n wait : ℕ) (ts : List ℕ) (l : List Float)
      → inserts F (gathered F g r.bars n wait r.from ts) (waited g r t n wait l)
        ≡ inserts F (gathered F g r.bars n wait r.from (t ∷ ts)) l
  waited_gathered g r t n wait ts l = elim (Bool-cases (leb wait (t + five_minutes - r.from))) [
    | inl e ↦
        let s = sum_bars r.bars (t + five_minutes) n in
        simp (
          e,
          change_add F g s l,
          inserts-append F (sample F g s) (gathered F g r.bars n wait r.from ts) l,
        )
    | inr e ↦ simp e
  ]

  pub tallied_counted :
      (bars : Bars) (t v : ℕ) (ts : List ℕ)
      → tallied bars t v true + counted bars ts ≡ v + counted bars (t ∷ ts)
  tallied_counted bars t v ts = ground arith

  pub marked_dated :
      (bars : Bars) (t : ℕ) (dates : ℕ → ℕ) (ts : List ℕ) (d : ℕ)
      → marked bars t dates true d + dated bars ts d ≡ dates d + dated bars (t ∷ ts) d
  marked_dated bars t dates ts d = elim (Bool-cases (is_some (bars (unix t)))) [
    | inl e ↦ elim (Bool-cases (d == day t)) [
      | inl f ↦ let same = ap dates ((==_iff d (day t)).0 f) in rw (e, f) (omega arith)
      | inr f ↦ rw (e, f) refl
    ]
    | inr e ↦ rw e refl
  ]

  pub started_on-grown : (r : RollingBaseline F) (ts : List ℕ) → started_on F r ts ≡ grown_by r ts
  unfolding started_on
  started_on-grown r [] =
      rolling_ext r r.dates (λ d. r.dates d + 0) r.valid (r.valid + 0) r.net15 r.net15 r.vol15
        r.vol15 r.net60 r.net60 r.vol60 r.vol60 (fun_ext (λ d. omega arith)) (omega arith) refl refl
        refl refl
  started_on-grown r (t ∷ ts) =
      started_on-grown (started F r t) ts
      ∙ ap (λ q. grown_by q ts) (started_fields r t)
      ∙ rolling_ext r _ _ _ _ _ _ _ _ _ _ _ _ (fun_ext (marked_dated r.bars t r.dates ts))
          (tallied_counted r.bars t r.valid ts)
          (waited_gathered (net_of F) r t 3 (15 * minute) ts r.net15)
          (waited_gathered (volume_of F) r t 3 (15 * minute) ts r.vol15)
          (waited_gathered (net_of F) r t 12 hour ts r.net60)
          (waited_gathered (volume_of F) r t 12 hour ts r.vol60)

  -- A bar leaves the count and the dates, and another one comes.
  pub marked_off :
      (bars : Bars) (t : ℕ) (ts : List ℕ) (d : ℕ)
      → marked bars t (dated bars (t ∷ ts)) false d ≡ dated bars ts d
  marked_off bars t ts d = elim (Bool-cases (is_some (bars (unix t)))) [
    | inl e ↦ elim (Bool-cases (d == day t)) [
      | inl f ↦
          let same = ap (dated bars ts) ((==_iff d (day t)).0 f) in
          rw (e, f, ==_refl (day t)) (omega arith)
      | inr f ↦ simp (e, f)
    ]
    | inr e ↦ simp e
  ]

  pub marked_slide :
      (bars : Bars) (t u : ℕ) (ts : List ℕ)
      → marked bars u (marked bars t (dated bars (t ∷ ts)) false) true ≡ dated bars (ts ++ u ∷ [])
  marked_slide bars t u ts =
      ap (λ f. marked bars u f true) (fun_ext (marked_off bars t ts))
      ∙ fun_ext (λ d.
        let a = marked_dated bars u (dated bars ts) [] d in
        let b = dated-append bars ts (u ∷ []) d in omega arith)

  pub tallied_slide :
      (bars : Bars) (t u : ℕ) (ts : List ℕ)
      → tallied bars u (tallied bars t (counted bars (t ∷ ts)) false) true
        ≡ counted bars (ts ++ u ∷ [])
  tallied_slide bars t u ts = let a = counted-append bars ts (u ∷ []) in ground arith
