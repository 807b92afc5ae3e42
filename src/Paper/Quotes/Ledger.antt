-- ===== src/Paper/Quotes/Ledger.antt =====
-- `onQuote` on the store: what a duplicate, a bad quote and a refused transaction leave.
use tidal_crypto_intelligenc.Base.{
  ℕ, ◌+◌, ◌*◌, ◌<◌, second, Option, none, ◌≤◌, ◌≡◌, ◌⊎◌, inl, inr, refl, Bool, true, false, not,
  arith, Bool-cases, some, leb, le→leb, if◌then◌else◌,
}
use tidal_crypto_intelligenc.Paper.Decimal.{DecimalOps}
use tidal_crypto_intelligenc.Paper.Types.{Quote, quote_valid}
use tidal_crypto_intelligenc.Paper.Store.{Store, commit}
use tidal_crypto_intelligenc.Paper.Gap.{discontinuity}
use tidal_crypto_intelligenc.Paper.Quotes.{apply_quote, stale, on_quote}

module _ (D : DecimalOps) where
  -- A quote that is not newer than the last, or not valid, changes nothing.
  pub on_quote_old :
      (g t : Bool) (q : Quote D) (b : Bool) (p : Store D)
      → ((q.id ≤ p.last_quote_id) ⊎ (quote_valid D q q.at ≡ false))
      → (on_quote D g t q b p).0 ≡ p
  unfolding on_quote
  on_quote_old g t q b p (inr e) = rw e
  on_quote_old g t q b p (inl h) = elim (Bool-cases (quote_valid D q q.at)) [
    | inr e ↦ rw e
    | inl e ↦ rw (e, le→leb q.id p.last_quote_id h)
  ]

  apply_quote_refused :
      (q : Quote D) (b : Bool) (p : Store D)
      → (apply_quote D false q b p).1 ≡ false
      → let r = (apply_quote D false q b p).0 in (r.state ≡ p.state) × (r.ledger ≡ p.ledger)
  unfolding apply_quote commit
  apply_quote_refused q b p h = ground arith

  applied_refused :
      (q : Quote D) (b : Bool) (p : Store D) (cut : Store D × Bool)
      → let ready = record (cut.0) { last_quote_id = q.id; quote = some q } in
        let r = if cut.1 then apply_quote D false q b ready else cut in
        r.1 ≡ false → (r.0.state ≡ cut.0.state) × (r.0.ledger ≡ cut.0.ledger)
  applied_refused q b p (c, true) h =
      apply_quote_refused q b (record c { last_quote_id = q.id; quote = some q }) h
  applied_refused q b p (c, false) h = (refl, refl)

  -- The last quote is more than five seconds older.
  abbrev pub IsStale : Option (Quote D) → ℕ → Type 0
  IsStale none at = ⊥
  IsStale (some old) at = old.at + 5 * second < at

  stale-IsStale : (o : Option (Quote D)) (at : ℕ) → stale D o at ≡ true → IsStale o at
  stale-IsStale none at h = cc
  stale-IsStale (some old) at h = ground arith

  gap_refused :
      (g : Bool) (q : Quote D) (b : Bool) (p : Store D)
      → IsStale p.quote q.at
      → let cut = discontinuity D g q.at "quote_gap" p in
        let ready = record (cut.0) { last_quote_id = q.id; quote = some q } in
        let r = if cut.1 then apply_quote D false q b ready else cut in
        let left = (discontinuity D true q.at "quote_gap" p).0 in
        r.1 ≡ false
        → ((r.0.state ≡ p.state) × (r.0.ledger ≡ p.ledger))
          ⊎ (IsStale p.quote q.at
              × (g ≡ true)
              × (r.0.state ≡ left.state)
              × (r.0.ledger ≡ left.ledger))
  unfolding discontinuity commit
  gap_refused true q b p old h =
      let k = applied_refused q b p (discontinuity D true q.at "quote_gap" p) h in
      inr (old, refl, k.0, k.1)
  gap_refused false q b p old h = inl (refl, refl)

  -- Where the database refuses the quote's own transaction and the quote fails, the state and the
  -- ledger are as before it; or the last quote is more than five seconds old and the transaction of
  -- the gap was taken, and they are as that gap leaves them.
  pub on_quote_refused :
      (g : Bool) (q : Quote D) (b : Bool) (p : Store D)
      → (on_quote D g false q b p).1 ≡ false
      → let r = (on_quote D g false q b p).0 in
        let cut = (discontinuity D true q.at "quote_gap" p).0 in
        ((r.state ≡ p.state) × (r.ledger ≡ p.ledger))
        ⊎ (IsStale p.quote q.at × (g ≡ true) × (r.state ≡ cut.state) × (r.ledger ≡ cut.ledger))
  unfolding on_quote
  on_quote_refused g q b p h = elim (Bool-cases (not (quote_valid D q q.at))) [
    | inl e ↦ rw e (inl (refl, refl))
    | inr e ↦ elim (Bool-cases (leb q.id p.last_quote_id)) [
      | inl f ↦ cc (rw (e, f) at h)
      | inr f ↦ elim (Bool-cases (stale D p.quote q.at)) [
        | inr s ↦ rw (e, f, s) (inl (applied_refused q b p (p, true) (rw (e, f, s) at h)))
        | inl s ↦
            rw (e, f, s) (gap_refused g q b p (stale-IsStale p.quote q.at s) (rw (e, f, s) at h))
      ]
    ]
  ]
