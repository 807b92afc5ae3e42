-- ===== src/Paper/Admission/Gate.antt =====
-- What `admission` admits.
use tidal_crypto_intelligenc.Base.{
  ℕ, ◌+◌, ◌*◌, ◌≤◌, ◌<◌, ◌≡◌, ◌↔◌, ◌⊎◌, inl, inr, ◌&&◌, leb, leb→le, Bool-cases, Option, none, some,
  minute, unix_milli, Bool, true, false, arith, refl, List, [], ◌∷◌, All, str_eq, second, hour,
  truncate, is_some, String,
}
use tidal_crypto_intelligenc.Paper.Decimal.{DecimalOps, is_positive, at_most}
use tidal_crypto_intelligenc.Paper.Types.{
  Signal, Quote, Instrument, Intent, State, quote_valid, instrument_valid,
}
use tidal_crypto_intelligenc.Paper.Funding.{
  settlement_observed, all_observed, in_conflict, funding_known,
}
use tidal_crypto_intelligenc.Paper.Store.{Store}
use tidal_crypto_intelligenc.Paper.Admission.{
  eligible, recovering, expired, quote_fresh, first_reason, checks, admission,
}

-- A row of early returns gives "" exactly when no test holds.
pub first_reason_iff :
    (cs : List (Bool × String))
    → All (λ c. str_eq c.1 "" ≡ false) cs
    → (str_eq (first_reason cs) "" ≡ true) ↔ All (λ c. c.0 ≡ false) cs
first_reason_iff [] n = (λ h. tt, λ k. refl)
first_reason_iff ((true, reason) ∷ cs) n = (λ h. cc, λ k. cc)
first_reason_iff ((false, reason) ∷ cs) n =
    let ih = first_reason_iff cs n.1 in (λ h. (refl, ih.0 h), λ k. ih.1 k.1)

-- A signal to trade: of BTC, by the multifactor rules, in a direction.
pub record IsEligible (g : Signal) : Type 0 where
  pub asset : str_eq g.asset "BTC" ≡ true
  pub rules : str_eq g.rules "flow-multifactor-v1" ≡ true
  pub direction : (str_eq g.direction "buy" ≡ true) ⊎ (str_eq g.direction "sell" ≡ true)

eligible_iff : (g : Signal) → (eligible g ≡ true) ↔ IsEligible g
unfolding eligible
eligible_iff g = (
  λ h. record { asset = ground arith; rules = ground arith; direction = ground arith },
  λ k. ground (arith, k.asset, k.rules, k.direction),
)

-- A settlement lies within a second of the announced time (in milliseconds).
abbrev pub IsSettled : List ℕ → ℕ → Type 0
IsSettled [] due = ⊥
IsSettled (at ∷ ats) due = ((due ≤ at + 1000) × (at ≤ due + 1000)) ⊎ IsSettled ats due

IsSettled-iff : (ats : List ℕ) (due : ℕ) → (settlement_observed ats due ≡ true) ↔ IsSettled ats due
unfolding settlement_observed
IsSettled-iff [] due = (λ h. cc, λ k. absurd k)
IsSettled-iff (at ∷ ats) due =
    let ih = IsSettled-iff ats due in
    (
      λ h. elim (Bool-cases (leb due (at + 1000) && leb at (due + 1000))) [
        | inl e ↦ inl (ground arith)
        | inr e ↦ inr (ih.0 (rw e at h))
      ],
      λ k. elim k [ inl w ↦ ground (arith, w.0, w.1) | inr r ↦ ground (arith, ih.1 r) ],
    )

observed_iff :
    (ats dues : List ℕ) (now : ℕ)
    → (all_observed ats dues now ≡ true) ↔ All (λ due. due ≤ now → IsSettled ats due) dues
unfolding all_observed
observed_iff ats [] now = (λ h. tt, λ k. refl)
observed_iff ats (due ∷ dues) now =
    let ih = observed_iff ats dues now in
    (
      λ h. (λ l. (IsSettled-iff ats due).0 (ground arith), ih.0 (ground arith)),
      λ k. elim (Bool-cases (leb due now)) [
        | inl e ↦ ground (arith, (IsSettled-iff ats due).1 (k.0 (leb→le due now e)), ih.1 k.1)
        | inr e ↦ ground (arith, ih.1 k.1)
      ],
    )

module _ (D : DecimalOps) where
  -- The contract is traded, with positive bounds, as it was six hours ago at most.
  pub record IsTraded (m : Instrument D) (now : ℕ) : Type 0 where
    pub status : str_eq m.status "TRADING" ≡ true
    pub step : is_positive D m.step ≡ true
    pub maximum : is_positive D m.maximum ≡ true
    pub known : m.at ≤ now
    pub recent : now ≤ m.at + 6 * hour

  traded_iff : (m : Instrument D) (now : ℕ) → (instrument_valid D m now ≡ true) ↔ IsTraded m now
  unfolding instrument_valid
  traded_iff m now = (
    λ h. record {
      status = ground arith;
      step = ground arith;
      maximum = ground arith;
      known = ground arith;
      recent = ground arith;
    },
    λ k. ground (arith, k.status, k.step, k.maximum, k.known, k.recent),
  )

  -- A quote of a book with both sides that are not crossed, five seconds old at most.
  pub record IsFresh (q : Quote D) (now : ℕ) : Type 0 where
    pub id : 0 < q.id
    pub bid : is_positive D q.bid ≡ true
    pub uncrossed : at_most D q.bid q.ask ≡ true
    pub bid_qty : is_positive D q.bid_qty ≡ true
    pub ask_qty : is_positive D q.ask_qty ≡ true
    pub known : q.at ≤ now
    pub recent : now ≤ q.at + 5 * second
    pub event_known : q.event_at ≤ now + second
    pub event_recent : now ≤ q.event_at + 5 * second

  valid_iff : (q : Quote D) (now : ℕ) → (quote_valid D q now ≡ true) ↔ IsFresh q now
  unfolding quote_valid
  valid_iff q now = (
    λ h. record {
      id = ground arith;
      bid = ground arith;
      uncrossed = ground arith;
      bid_qty = ground arith;
      ask_qty = ground arith;
      known = ground arith;
      recent = ground arith;
      event_known = ground arith;
      event_recent = ground arith;
    },
    λ k. ground (
      arith, k.id, k.bid, k.uncrossed, k.bid_qty, k.ask_qty, k.known, k.recent, k.event_known,
      k.event_recent,
    ),
  )

  abbrev pub HasFresh : Option (Quote D) → ℕ → Type 0
  HasFresh none now = ⊥
  HasFresh (some q) now = IsFresh q now

  fresh_iff : (o : Option (Quote D)) (now : ℕ) → (quote_fresh D o now ≡ true) ↔ HasFresh o now
  fresh_iff none now = (λ h. cc, λ k. absurd k)
  fresh_iff (some q) now = valid_iff q now

  abbrev pub Unconflicted : Option ℕ → ℕ → Type 0
  Unconflicted none now = Unit
  Unconflicted (some c) now = now < c

  Unconflicted-iff : (o : Option ℕ) (now : ℕ) → (in_conflict o now ≡ false) ↔ Unconflicted o now
  Unconflicted-iff none now = (λ h. tt, λ k. refl)
  Unconflicted-iff (some c) now = (λ h. ground arith, λ k. ground arith)

  -- The settlements are known: none contradicts another, the history is three minutes old at most,
  -- and every announced time that has come is settled.
  pub record IsKnown (s : State D) (now : ℕ) : Type 0 where
    pub unconflicted : Unconflicted s.funding_conflict now
    pub through : now ≤ s.funding_through + 3 * minute
    pub settled :
        All (λ due. due ≤ unix_milli now → IsSettled s.settled_funding due) s.expected_funding

  known_iff : (s : State D) (now : ℕ) → (funding_known D s now true ≡ true) ↔ IsKnown s now
  unfolding funding_known
  known_iff s now =
      let seen = observed_iff s.settled_funding s.expected_funding (unix_milli now) in
      let clear = Unconflicted-iff s.funding_conflict now in
      (
        λ h. record {
          unconflicted = clear.0 (ground arith);
          through = ground arith;
          settled = seen.0 (ground arith);
        },
        λ k. ground (arith, clear.1 k.unconflicted, k.through, seen.1 k.settled),
      )

  -- All that must hold for an intent to be traded at an instant.
  pub record IsAdmitted (p : Store D) (s : State D) (i : Intent D) (now : ℕ) (protected : Bool)
      : Type 0 where
    pub running : str_eq p.mode "run" ≡ true
    pub begun : is_some s.origin ≡ true
    pub continuous : s.gap ≡ false
    pub good : 0 < s.good_since
    pub settled : s.good_since + 30 * second ≤ now
    pub room : protected ≡ false
    pub arrived : i.signal.at ≤ now
    pub young : now ≤ i.signal.at + 30 * second
    pub own : IsEligible i.signal
    pub contract : IsTraded p.instrument now
    pub atr : is_positive D i.atr ≡ true
    pub atr_hour : i.atr_through ≡ truncate now hour
    pub quote : HasFresh p.quote now
    pub marked : 0 < p.mark_at
    pub mark_fresh : now ≤ p.mark_at + 5 * second
    pub funded : IsKnown s now

  reasons :
      (p : Store D) (s : State D) (i : Intent D) (now : ℕ) (protected : Bool)
      → All (λ c. str_eq c.1 "" ≡ false) (checks D p s i now protected)
  unfolding checks
  reasons p s i now protected =
      (refl, (refl, (refl, (refl, (refl, (refl, (refl, (refl, (refl, (refl, tt))))))))))

  -- `admission` gives no reason exactly when: the experiment runs and has begun, without a gap and in
  -- good data for 30 seconds; the storage has room; the signal is not of the future, 30 seconds old at
  -- most, of BTC, by the multifactor rules, to buy or to sell; the contract is traded, with a positive
  -- step and maximum, and known for six hours at most; the range is positive and that of the hour;
  -- the quote has an id, two sides that are not crossed, and is five seconds old at most; so is the
  -- mark; no settlement up to now is in conflict, their history is three minutes old at most, and
  -- each announced one that has come is there, within a second.
  pub admission_iff :
      (p : Store D) (s : State D) (i : Intent D) (now : ℕ) (protected : Bool)
      → (str_eq (admission D p s i now protected) "" ≡ true) ↔ IsAdmitted p s i now protected
  unfolding admission recovering expired
  admission_iff p s i now protected =
      let gate = first_reason_iff (checks D p s i now protected) (reasons p s i now protected) in
      (
        λ h.
            let k : All (λ c. c.0 ≡ false) (checks D p s i now protected) = gate.0 h in
            record {
              running = ground arith;
              begun = ground arith;
              continuous = ground arith;
              good = ground arith;
              settled = ground arith;
              room = ground arith;
              arrived = ground arith;
              young = ground arith;
              own = (eligible_iff i.signal).0 (ground arith);
              contract = (traded_iff p.instrument now).0 (ground arith);
              atr = ground arith;
              atr_hour = ground arith;
              quote = (fresh_iff p.quote now).0 (ground arith);
              marked = ground arith;
              mark_fresh = ground arith;
              funded = (known_iff s now).0 (ground arith);
            },
        λ k. gate.1 (
            ground (
              arith,
              (eligible_iff i.signal).1 k.own,
              (traded_iff p.instrument now).1 k.contract,
              (fresh_iff p.quote now).1 k.quote,
              (known_iff s now).1 k.funded,
              k,
            )),
      )
