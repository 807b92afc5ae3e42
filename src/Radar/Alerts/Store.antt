-- ===== src/Radar/Alerts/Store.antt =====
-- What is true of the radar's tables after every application.
use tidal_crypto_intelligenc.Base.{
  ℕ, ◌≡◌, refl, inl, inr, ◌∙◌, sym, Bool, true, false, not, ◌&&◌, some, some_inv, List, [], ◌∷◌,
  String, str_eq, arith, Bool-cases, Option-cases, All, All-append, is_none, is_some,
}
use mathlib.Core.Path.{subst}
use tidal_crypto_intelligenc.Paper.Decimal.{DecimalOps}
use tidal_crypto_intelligenc.Radar.{Account, Wallet, Reading, Event}
use tidal_crypto_intelligenc.Radar.Fills.{put_event, Chain}
use tidal_crypto_intelligenc.Radar.Evidence.{
  Notice, Trial, Check, eligible, queue, notice, at_least, opening_alert, priority_alert,
  alert_opening, alert_priority, alert_both, has_trial, freeze, recent,
}
use tidal_crypto_intelligenc.Radar.Apply.{
  Input, Tables, evaluate, evaluate_all, settle_event, check_of,
}
use tidal_crypto_intelligenc.Radar.Alerts.{
  Kept, Kept-trans, at-some, evaluate-Steps, funded-Kept, verify-Kept,
}

module _ (D : DecimalOps) where
  -- Opened live, verified, still open, and over a million dollars when it crossed and now.
  abbrev pub Warrant : Event D → Type 0
  Warrant v =
      (v.live_opening ≡ true)
      × (v.verified ≡ true)
      × (is_none v.closed ≡ true)
      × (is_some v.threshold ≡ true)

  -- The upgrade was given after the opening alert.
  abbrev pub Graded : Event D → Type 0
  Graded v = v.upgrade_recorded ≡ true → v.initial_recorded ≡ true

  abbrev same_notice : Notice D → Notice D → Bool
  same_notice m n = str_eq m.event_id n.event_id && str_eq m.kind n.kind

  -- No two alerts of a kind for an episode.
  abbrev pub Distinct : List (Notice D) → Type 0
  Distinct [] = Unit
  Distinct (n ∷ ns) = All (λ m. same_notice n m ≡ false) ns × Distinct ns

  module _ (R : Reading D) where
    abbrev Large : Event D → Type 0
    Large v = Warrant v × (at_least D R 100000000 v.usd_cents ≡ true)

    abbrev Alertable : Event D → Type 0
    Alertable v = Large v × (str_eq v.age "established" ≡ false)

    abbrev pub Warranted : Notice D → Type 0
    Warranted n = Alertable n.event

    abbrev pub Sampled : Trial D → Type 0
    Sampled t = Large t.evidence

    queue-All :
        (P : Notice D → Type 0) (n : Notice D) (ns : List (Notice D))
        → P n
        → All P ns
        → All P (queue D R n ns)
    unfolding queue
    queue-All P n [] p h = (p, tt)
    queue-All P n (m ∷ ms) p h = elim (Bool-cases (same_notice m n)) [
      | inl e ↦ rw e h
      | inr e ↦ rw e (h.0, queue-All P n ms p h.1)
    ]

    queue-Distinct : (n : Notice D) (ns : List (Notice D)) → Distinct ns → Distinct (queue D R n ns)
    unfolding queue
    queue-Distinct n [] h = (tt, tt)
    queue-Distinct n (m ∷ ms) h = elim (Bool-cases (same_notice m n)) [
      | inl e ↦ rw e h
      | inr e ↦ rw e (queue-All (λ x. same_notice m x ≡ false) n ms e h.0, queue-Distinct n ms h.1)
    ]

    eligible-Alertable : (v : Event D) → eligible D R v ≡ true → Alertable v
    unfolding eligible
    eligible-Alertable v h = ground arith

    -- An event and the alerts beside it.
    record Sound (v : Event D) (ns : List (Notice D)) : Type 0 where
      pub graded : Graded v
      pub warranted : All Warranted ns
      pub distinct : Distinct ns

    queue-Sound :
        (now : ℕ) (kind : String) (v w : Event D) (ns : List (Notice D))
        → Alertable w
        → Graded w
        → Sound v ns
        → Sound w (queue D R (notice D R now kind w) ns)
    queue-Sound now kind v w ns a g s = record {
      graded = g;
      warranted = queue-All Warranted (notice D R now kind w) ns a s.warranted;
      distinct = queue-Distinct (notice D R now kind w) ns s.distinct;
    }

    alert_opening-Sound :
        (now : ℕ) (v : Event D) (ns : List (Notice D))
        → Sound v ns
        → let r = alert_opening D R now v ns in
          Sound r.0 r.1 × (eligible D R v ≡ true → Alertable r.0 × (r.0.initial_recorded ≡ true))
    unfolding alert_opening
    alert_opening-Sound now v ns s = elim (Bool-cases (eligible D R v && not v.initial_recorded)) [
      | inl e ↦
          let a = eligible-Alertable v (ground arith) in
          rw e
            (queue-Sound now "opening" v (opening_alert D R v) ns a (λ h. refl) s, λ h. (a, refl))
      | inr e ↦ rw e (s, λ h. (eligible-Alertable v h, settled h e))
    ]
      where
        settled :
            eligible D R v ≡ true
            → (eligible D R v && not v.initial_recorded) ≡ false
            → v.initial_recorded ≡ true
        settled h e = ground arith

    alert_priority-Sound :
        (now : ℕ) (able : Bool) (v : Event D) (ns : List (Notice D))
        → Sound v ns
        → (able ≡ true → Alertable v × (v.initial_recorded ≡ true))
        → let r = alert_priority D R now able v ns in Sound r.0 r.1
    unfolding alert_priority
    alert_priority-Sound now false v ns s h = s
    alert_priority-Sound now true v ns s h =
        let good = h refl in
        elim (Bool-cases
          (recent D R now v.threshold && v.rapid && v.concentrated && not v.upgrade_recorded)) [
            | inl e ↦
                rw e (queue-Sound now "priority" v (priority_alert D R v) ns good.0 (λ x. good.1) s)
            | inr e ↦ rw e s
          ]

    alert_both-Sound :
        (now : ℕ) (v : Event D) (ns : List (Notice D))
        → Sound v ns
        → let r = alert_both D R now v ns in Sound r.0 r.1
    unfolding alert_both
    alert_both-Sound now v ns s =
        let one = alert_opening-Sound now v ns s in
        alert_priority-Sound now (eligible D R v) _ _ one.0 one.1

    freeze-Sampled :
        (now : ℕ) (v : Event D) (ts : List (Trial D))
        → All Sampled ts
        → All Sampled (freeze D R now v ts)
    unfolding freeze
    freeze-Sampled now v ts h =
        elim (Bool-cases (
          v.live_opening
          && v.verified
          && is_none v.closed
          && is_some v.threshold
          && at_least D R 100000000 v.usd_cents
          && not (has_trial D R v.id ts))) [
            | inl e ↦ rw e (All-append Sampled ts _ h (ground arith, tt))
            | inr e ↦ rw e h
          ]

    pub put_event-All :
        (P : Event D → Type 0) (v : Event D) (vs : List (Event D))
        → P v
        → All P vs
        → All P (put_event D v vs)
    unfolding put_event
    put_event-All P v [] p h = (p, tt)
    put_event-All P v (w ∷ ws) p h = elim (Bool-cases (str_eq w.id v.id)) [
      | inl e ↦ rw e (p, h.1)
      | inr e ↦ rw e (h.0, put_event-All P v ws p h.1)
    ]

    -- The tables of an application.
    pub record IsSound (t : Tables D) : Type 0 where
      pub graded : All Graded t.events
      pub warranted : All Warranted t.outbox
      pub distinct : Distinct t.outbox
      pub sampled : All Sampled t.trials

    settle_event-IsSound :
        (now : ℕ) (v : Event D) (t : Tables D)
        → Graded v
        → IsSound t
        → IsSound (settle_event D R now v t)
    settle_event-IsSound now v t g s =
        let r =
          alert_both-Sound now v t.outbox
            (record { graded = g; warranted = s.warranted; distinct = s.distinct }) in
        record {
          graded = put_event-All Graded _ t.events r.graded s.graded;
          warranted = r.warranted;
          distinct = r.distinct;
          sampled = freeze-Sampled now _ t.trials s.sampled;
        }

    Graded-Kept : (v u : Event D) → Kept D v u → Graded v → Graded u
    Graded-Kept v u k g h = k.initial ∙ g (sym k.upgrade ∙ h)

    evaluate-IsSound :
        (k : Check D) (v : Event D) (t t' : Tables D)
        → Graded v
        → IsSound t
        → evaluate D R k v t ≡ some t'
        → IsSound t'
    evaluate-IsSound k v t t' g s e =
        let r = evaluate-Steps D R k v t t' e in
        let kept =
          Kept-trans D (verify-Kept D R k v r.checked r.check)
            (at-some D (funded-Kept D R k r.checked k.fx k.wallet.ledger_complete) r.fund) in
        subst (λ x. IsSound x) r.end
          (settle_event-IsSound k.now r.result t (Graded-Kept v r.result kept g) s)

    pub evaluate_all-IsSound :
        (i : Input D) (w : Wallet) (a : Account) (c : Chain D) (vs : List (Event D))
        (t t' : Tables D)
        → All Graded vs
        → IsSound t
        → evaluate_all D R i w a c vs t ≡ some t'
        → IsSound t'
    unfolding evaluate_all
    evaluate_all-IsSound i w a c [] t t' g s e = subst (λ x. IsSound x) (some_inv e) s
    evaluate_all-IsSound i w a c (v ∷ vs) t t' g s e =
        elim (Option-cases (evaluate D R (check_of D R i w a c v) v t)) [
          | inl x ↦ cc (rw x at e)
          | inr (u, x) ↦
              evaluate_all-IsSound i w a c vs u t' g.1
                (evaluate-IsSound (check_of D R i w a c v) v t u g.0 s x) (rw x at e)
        ]
