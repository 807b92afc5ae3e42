-- ===== src/Radar/Alerts.antt =====
-- What the radar's alerts rest on, and how often they are given.
pub mod Store
pub mod Application
use tidal_crypto_intelligenc.Base.{
  ℕ, ◌≤◌, ◌≡◌, refl, ◌⊎◌, inl, inr, ◌∙◌, Bool, true, false, not, ◌&&◌, if◌then◌else◌, Option, none,
  some, some_inv, List, [], ◌∷◌, String, str_eq, arith, Bool-cases, Option-cases, All, is_none,
  is_some,
}
use mathlib.Core.Path.{subst}
use tidal_crypto_intelligenc.Paper.Decimal.{DecimalOps, is_positive, nil}
use tidal_crypto_intelligenc.Radar.{Row, Account, Wallet, Reading, number, money, Event, radar_time}
use tidal_crypto_intelligenc.Radar.Evidence.{
  Notice, Check, bind, geared, valued, good_liquidation, matched, compared, check_row, check_rows,
  checkable, account_fresh, deposits, verify, funded, eligible, queue, freeze, Trial, notice,
  at_least, opening_alert, priority_alert, alert_opening, alert_priority, alert_both,
}
use tidal_crypto_intelligenc.Radar.Apply.{Tables, evaluate, settle_event}

module _ (D : DecimalOps) where
  open D use {Decimal}

  -- The fields that a check of the evidence leaves alone.
  pub record Kept (v u : Event D) : Type 0 where
    pub live : u.live_opening ≡ v.live_opening
    pub initial : u.initial_recorded ≡ v.initial_recorded
    pub upgrade : u.upgrade_recorded ≡ v.upgrade_recorded

  pub Kept-trans : {v u w : Event D} → Kept v u → Kept u w → Kept v w
  Kept-trans a b = record {
    live = b.live ∙ a.live;
    initial = b.initial ∙ a.initial;
    upgrade = b.upgrade ∙ a.upgrade;
  }

  -- The result of a check that may fail.
  abbrev pub KeptBy : Event D → Option (Event D) → Type 0
  KeptBy v none = Unit
  KeptBy v (some u) = Kept v u

  KeptBy-from : {v u : Event D} → Kept v u → (o : Option (Event D)) → KeptBy u o → KeptBy v o
  KeptBy-from h none x = tt
  KeptBy-from h (some w) x = Kept-trans h x

  KeptBy-bind :
      (v : Event D) (o : Option (Event D)) (g : Event D → Option (Event D))
      → KeptBy v o
      → ((u : Event D) → KeptBy u (g u))
      → KeptBy v (bind D o g)
  KeptBy-bind v none g h k = tt
  KeptBy-bind v (some u) g h k = KeptBy-from h (g u) (k u)

  pub at-some : {v u : Event D} {o : Option (Event D)} → KeptBy v o → o ≡ some u → Kept v u
  at-some {v = v} h e = subst (KeptBy v) e h

  module _ (R : Reading D) where
    geared-Kept :
        (value : Decimal) (v : Event D) (e t : Option Decimal) → Kept v (geared D R value v e t)
    geared-Kept value v (some e) (some t) = ground arith
    geared-Kept value v none t = record { live = refl; initial = refl; upgrade = refl }
    geared-Kept value v (some e) none = record { live = refl; initial = refl; upgrade = refl }

    valued-Kept :
        (fx : Option Decimal) (value : Decimal) (v : Event D) → KeptBy v (valued D R fx value v)
    valued-Kept none value v = record { live = refl; initial = refl; upgrade = refl }
    valued-Kept (some fx) value v = elim (Option-cases (money D R (D.mul value fx))) [
      | inl e ↦ rw e tt
      | inr (c, e) ↦ rw e (record { live = refl; initial = refl; upgrade = refl })
    ]

    matched-Kept :
        (k : Check D) (row : Row) (v : Event D) (value : Decimal)
        → KeptBy v (matched D R k row v value)
    matched-Kept k row v value = elim (Bool-cases (good_liquidation D R row.liquidation)) [
      | inr e ↦ rw e tt
      | inl e ↦
          let good = record v {
            verified = true;
            through = radar_time k.account.time;
            native = some value;
          } in
          rw e (
            KeptBy-from {v = v} {u = good} (record { live = refl; initial = refl; upgrade = refl })
              (bind D (valued D R k.fx value good) (λ u.
                some
                  (geared D R value u (number D R k.account.equity) (number D R k.account.total))))
              (KeptBy-bind good (valued D R k.fx value good) _ (valued-Kept k.fx value good) (λ u.
                geared-Kept value u (number D R k.account.equity) (number D R k.account.total))))
    ]

    compared-Kept :
        (k : Check D) (row : Row) (v : Event D) (s a e : Option Decimal)
        → KeptBy v (compared D R k row v s a e)
    compared-Kept k row v (some s) (some a) (some e) =
        elim (Bool-cases (is_positive D a && is_positive D e && D.equal s k.position.size)) [
          | inl h ↦ rw h (matched-Kept k row v a)
          | inr h ↦ rw h (record { live = refl; initial = refl; upgrade = refl })
        ]
    compared-Kept k row v none a e = record { live = refl; initial = refl; upgrade = refl }
    compared-Kept k row v (some s) none e = record { live = refl; initial = refl; upgrade = refl }
    compared-Kept k row v (some s) (some a) none = record {
      live = refl;
      initial = refl;
      upgrade = refl;
    }

    check_row-Kept : (k : Check D) (v : Event D) (row : Row) → KeptBy v (check_row D R k v row)
    unfolding check_row
    check_row-Kept k v row = elim (Bool-cases (str_eq row.coin v.asset)) [
      | inl h ↦ rw h (
          compared-Kept k row v (number D R row.size) (number D R row.value) (number D R row.entry))
      | inr h ↦ rw h (record { live = refl; initial = refl; upgrade = refl })
    ]

    check_rows-Kept :
        (k : Check D) (v : Event D) (rows : List Row) → KeptBy v (check_rows D R k v rows)
    unfolding check_rows
    check_rows-Kept k v [] = record { live = refl; initial = refl; upgrade = refl }
    check_rows-Kept k v (row ∷ rows) =
        KeptBy-bind v (check_row D R k v row) _ (check_row-Kept k v row)
          (λ u. check_rows-Kept k u rows)

    -- What a check starts from.
    abbrev reset : Check D → Event D → Event D
    reset k v = record v {
      updated = k.now;
      age = k.wallet.age;
      history_complete = k.wallet.history_complete;
      verified = false;
    }

    -- A check leaves the flags alone, and verifies only what can be checked.
    pub verify-Kept : (k : Check D) (v u : Event D) → verify D R k v ≡ some u → Kept v u
    unfolding verify
    verify-Kept k v u h = elim (Bool-cases (checkable D R k v)) [
      | inl e ↦
          at-some {o = check_rows D R k (reset k v) k.account.positions}
            (KeptBy-from {v = v} {u = reset k v}
              (record { live = refl; initial = refl; upgrade = refl }) _
              (check_rows-Kept k (reset k v) k.account.positions))
            (rw e at h)
      | inr e ↦
          at-some {o = some (reset k v)} (record { live = refl; initial = refl; upgrade = refl })
            (rw e at h)
    ]

    pub verify-unchecked :
        (k : Check D) (v u : Event D)
        → checkable D R k v ≡ false
        → verify D R k v ≡ some u
        → u.verified ≡ false
    unfolding verify
    verify-unchecked k v u e h =
        subst (λ (x : Event D). x.verified ≡ false) (some_inv (rw e at h)) refl

    pub funded-Kept :
        (k : Check D) (v : Event D) (fx : Option Decimal) (complete : Bool)
        → KeptBy v (funded D R k v fx complete)
    funded-Kept k v none complete = record { live = refl; initial = refl; upgrade = refl }
    funded-Kept k v (some fx) false = record { live = refl; initial = refl; upgrade = refl }
    funded-Kept k v (some fx) true =
        elim (Option-cases (money D R (D.mul (deposits D R v.opened k.wallet.ledger (nil D)) fx))) [
          | inl e ↦ rw e tt
          | inr (c, e) ↦ rw e (record { live = refl; initial = refl; upgrade = refl })
        ]

    verified-funded :
        (k : Check D) (v x : Event D) (fx : Option Decimal) (complete : Bool)
        → funded D R k v fx complete ≡ some x
        → x.verified ≡ v.verified
    verified-funded k v x none complete h =
        subst (λ (y : Event D). y.verified ≡ v.verified) (some_inv h) refl
    verified-funded k v x (some fx) false h =
        subst (λ (y : Event D). y.verified ≡ v.verified) (some_inv h) refl
    verified-funded k v x (some fx) true h =
        elim (Option-cases (money D R (D.mul (deposits D R v.opened k.wallet.ledger (nil D)) fx))) [
          | inl e ↦ cc (rw e at h)
          | inr (c, e) ↦
              subst (λ (y : Event D). y.verified ≡ v.verified) (some_inv (rw e at h)) refl
        ]

    -- Not opened live, or not verified now.
    abbrev pub Plain : Event D → Type 0
    Plain v = (v.live_opening ≡ false) ⊎ (v.verified ≡ false)

    eligible-Plain : (v : Event D) → Plain v → eligible D R v ≡ false
    unfolding eligible
    eligible-Plain v (inl h) = rw h
    eligible-Plain v (inr h) = ground arith

    alert_both-Plain :
        (now : ℕ) (v : Event D) (ns : List (Notice D)) → Plain v → alert_both D R now v ns ≡ (v, ns)
    unfolding alert_both
    alert_both-Plain now v ns h = rw (eligible-Plain v h)

    freeze-Plain :
        (now : ℕ) (v : Event D) (ts : List (Trial D)) → Plain v → freeze D R now v ts ≡ ts
    unfolding freeze
    freeze-Plain now v ts (inl h) = rw h
    freeze-Plain now v ts (inr h) = ground arith

    checked-Plain :
        (k : Check D) (v u x : Event D)
        → (v.live_opening ≡ false) ⊎ (checkable D R k v ≡ false)
        → verify D R k v ≡ some u
        → funded D R k u k.fx k.wallet.ledger_complete ≡ some x
        → Plain x
    checked-Plain k v u x (inl h) a b = inl (
        (at-some (funded-Kept k u k.fx k.wallet.ledger_complete) b).live
        ∙ (verify-Kept k v u a).live
        ∙ h)
    checked-Plain k v u x (inr h) a b =
        inr (verified-funded k u x k.fx k.wallet.ledger_complete b ∙ verify-unchecked k v u h a)

    -- The steps of an evaluation that did not fail.
    pub record Steps (k : Check D) (v : Event D) (t t' : Tables D) : Type 0 where
      pub checked : Event D
      pub result : Event D
      pub check : verify D R k v ≡ some checked
      pub fund : funded D R k checked k.fx k.wallet.ledger_complete ≡ some result
      pub end : settle_event D R k.now result t ≡ t'

    pub evaluate-Steps :
        (k : Check D) (v : Event D) (t t' : Tables D)
        → evaluate D R k v t ≡ some t'
        → Steps k v t t'
    unfolding evaluate
    evaluate-Steps k v t t' e = elim (Option-cases (verify D R k v)) [
      | inl a ↦ cc (rw a at e)
      | inr (u, a) ↦ elim (Option-cases (funded D R k u k.fx k.wallet.ledger_complete)) [
        | inl b ↦ cc (rw (a, b) at e)
        | inr (x, b) ↦ record {
          checked = u;
          result = x;
          check = a;
          fund = b;
          end = some_inv (rw (a, b) at e);
        }
      ]
    ]

    settle_event-Plain :
        (now : ℕ) (v : Event D) (t : Tables D)
        → Plain v
        → ((settle_event D R now v t).outbox ≡ t.outbox)
          × ((settle_event D R now v t).trials ≡ t.trials)
    settle_event-Plain now v t h =
        rw (alert_both-Plain now v t.outbox h) (refl, freeze-Plain now v t.trials h)

    -- An episode that was not opened live, or that cannot be checked (it is closed, it is not the
    -- position's, its chain is broken or the account is not fresh), gives no alert and no sample.
    pub evaluate_quiet :
        (k : Check D) (v : Event D) (t t' : Tables D)
        → (v.live_opening ≡ false) ⊎ (checkable D R k v ≡ false)
        → evaluate D R k v t ≡ some t'
        → (t'.outbox ≡ t.outbox) × (t'.trials ≡ t.trials)
    evaluate_quiet k v t t' h e =
        let s = evaluate-Steps k v t t' e in
        subst (λ (y : Tables D). (y.outbox ≡ t.outbox) × (y.trials ≡ t.trials)) s.end
          (settle_event-Plain k.now s.result t
            (checked-Plain k v s.checked s.result h s.check s.fund))
