-- ===== src/Paper/Quotes/Exits.antt =====
-- How positions end on quotes.
use tidal_crypto_intelligenc.Base.{
  ℕ, ◌+◌, ◌≤◌, ◌<◌, ◌≡◌, ◌⊎◌, inl, inr, refl, Bool, true, false, List, [], some, arith, str_eq,
  second, String, length,
}
use tidal_crypto_intelligenc.Paper.Decimal.{DecimalOps}
use tidal_crypto_intelligenc.Paper.Types.{Quote, Trade, Fill, Account, flag}
use tidal_crypto_intelligenc.Paper.Trading.{mark, trigger}
use tidal_crypto_intelligenc.Paper.Gap.{spoil}
use tidal_crypto_intelligenc.Paper.Store.{Store}
use tidal_crypto_intelligenc.Paper.Quotes.{risk_exit, watch, due, close_size, hold}

module _ (D : DecimalOps) where
  open D use {Decimal, add, sub, less}

  -- A step of the watch on a trade that waits: its exit stays, or is set to a second after the quote.
  abbrev Waits : ℕ → Trade D → Trade D → Type 0
  Waits at t u =
      ((u.exit_reason ≡ t.exit_reason) × (u.exit_after ≡ t.exit_after))
      ⊎ ((str_eq t.exit_reason "" ≡ true) × (u.exit_after ≡ at + second))

  mark-exit :
      (t : Trade D) (q : Quote D)
      → ((mark D t q).exit_reason ≡ t.exit_reason) × ((mark D t q).exit_after ≡ t.exit_after)
  unfolding mark
  mark-exit t q = ground arith

  trigger-Waits : (r : String) (at : ℕ) (t : Trade D) → Waits at t (trigger D r at t)
  unfolding trigger
  trigger-Waits r at t = ground arith

  spoil-Waits : (at : ℕ) (t : Trade D) → Waits at t (spoil D at t)
  unfolding spoil flag trigger
  spoil-Waits at t = ground arith

  risk_exit-Waits : (t : Trade D) (q : Quote D) → Waits q.at t (risk_exit D t q)
  unfolding risk_exit trigger
  risk_exit-Waits t q = ground arith

  watch-Waits :
      (gap : Bool) (g : String) (q : Quote D) (t : Trade D) → Waits q.at t (watch D gap g q t)
  unfolding watch
  watch-Waits gap g q t = ground (
    arith,
    mark-exit t q,
    spoil-Waits q.at (mark D t q),
    risk_exit-Waits (mark D t q) q,
    risk_exit-Waits (spoil D q.at (mark D t q)) q,
  )

  -- The first exit reason stays, and so does its time.
  pub watch_first_reason :
      (gap : Bool) (g : String) (q : Quote D) (t : Trade D)
      → str_eq t.exit_reason "" ≡ false
      → let w = watch D gap g q t in (w.exit_reason ≡ t.exit_reason) × (w.exit_after ≡ t.exit_after)
  watch_first_reason gap g q t h = elim (watch-Waits gap g q t) [ inl k ↦ k | inr k ↦ cc (k.0) ]

  not_due :
      (p : Store D) (q : Quote D) (t : Trade D) (qty : Decimal)
      → (str_eq t.exit_reason "" ≡ true) ⊎ (q.at < t.exit_after)
      → due D p q t qty ≡ false
  unfolding due
  not_due p q t qty h = ground arith

  -- The exit of a trade is not triggered, or was triggered at `at` or later, a second before it is due.
  abbrev pub Later : ℕ → Trade D → Type 0
  Later at t = (str_eq t.exit_reason "" ≡ true) ⊎ (at + second ≤ t.exit_after)

  watch-Later :
      (gap : Bool) (g : String) (q : Quote D) (t : Trade D) (at : ℕ)
      → at ≤ q.at
      → Later at t
      → Later at (watch D gap g q t)
  watch-Later gap g q t at l h = elim (watch-Waits gap g q t) [
    | inr k ↦ inr (omega (arith, k.1))
    | inl (r, a) ↦ elim h [ inl e ↦ inl (rw r e) | inr e ↦ inr (omega (arith, a)) ]
  ]

  -- The account holds such a trade.
  pub record Held (at : ℕ) (a : Account D) : Type 0 where
    pub trade : Trade D
    pub position : a.position ≡ some trade
    pub later : Later at trade

  -- On a quote of that second nothing is filled, and the position goes on.
  pub hold_waits :
      (p : Store D) (gap : Bool) (q : Quote D) (a : Account D) (t : Trade D) (at : ℕ)
      → at ≤ q.at
      → q.at < at + second
      → Later at t
      → let r = hold D p gap q a t in (r.1.fills ≡ []) × Held at r.0
  unfolding hold
  hold_waits p gap q a t at l m h =
      let w = watch D gap a.group q t in
      let k = watch-Later gap a.group q t at l h in
      let closed : (str_eq w.exit_reason "" ≡ true) ⊎ (q.at < w.exit_after) = (elim k [
        | inl e ↦ inl e
        | inr e ↦ inr (omega arith)
      ]) in
      rw (not_due p q w (close_size D q w) closed)
        (refl, record { trade = w; position = refl; later = k })

  -- One fill, or none.
  abbrev pub Few : List (Fill D) → Type 0
  Few fs = length fs ≤ 1
