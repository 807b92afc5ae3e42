-- ===== src/Paper/Gap/Effects.antt =====
-- What a gap leaves behind.
use tidal_crypto_intelligenc.Base.{
  ℕ, ◌≡◌, refl, Bool-cases, inl, inr, true, false, List, [], ◌∷◌, All, Option, none, some, String,
  str_eq, zero_time,
}
use tidal_crypto_intelligenc.Paper.Decimal.{DecimalOps}
use tidal_crypto_intelligenc.Paper.Types.{Trade, Account, State, flag}
use tidal_crypto_intelligenc.Paper.Trading.{trigger}
use tidal_crypto_intelligenc.Paper.Store.{Store, commit}
use tidal_crypto_intelligenc.Paper.Gap.{
  spoil, spoiled, interrupt, interrupt_all, gap_marked, interrupted, discontinuity,
}

module _ (D : DecimalOps) where
  abbrev pub Ending : Option (Trade D) → Type 0
  Ending none = Unit
  Ending (some t) = str_eq t.exit_reason "" ≡ false

  -- Nothing is pending, and a position is on its way out.
  abbrev pub WoundDown : Account D → Type 0
  WoundDown a = (a.pending ≡ none) × Ending a.position

  trigger-ends :
      (r : String) (at : ℕ) (t : Trade D)
      → str_eq r "" ≡ false
      → str_eq (trigger D r at t).exit_reason "" ≡ false
  unfolding trigger
  trigger-ends r at t h = elim (Bool-cases (str_eq t.exit_reason "")) [
    | inl e ↦ rw e h
    | inr e ↦ rw e e
  ]

  spoil-ends : (now : ℕ) (t : Trade D) → str_eq (spoil D now t).exit_reason "" ≡ false
  unfolding spoil
  spoil-ends now t = trigger-ends "data_gap" now (flag D "data_gap" t) refl

  spoiled-Ending : (now : ℕ) (o : Option (Trade D)) → Ending (spoiled D now o)
  spoiled-Ending now none = tt
  spoiled-Ending now (some t) = spoil-ends now t

  interrupt_all-WoundDown :
      (s : State D) (now : ℕ) (reason : String) (accounts : List (Account D))
      → All WoundDown (interrupt_all D s now reason accounts).0
  unfolding interrupt_all interrupt
  interrupt_all-WoundDown s now reason [] = tt
  interrupt_all-WoundDown s now reason (a ∷ accounts) =
      ((refl, spoiled-Ending now a.position), interrupt_all-WoundDown s now reason accounts)

  -- A recorded gap drops every pending intent, gives every open position an exit reason, and starts
  -- the recovery over; if the database refuses it, the store is as before.
  pub discontinuity_winds_down :
      (now : ℕ) (reason : String) (p : Store D)
      → let s = (discontinuity D true now reason p).0.state in
        All WoundDown s.accounts
        × (s.gap ≡ true)
        × (s.good_since ≡ zero_time)
        × (discontinuity D false now reason p ≡ (p, false))
  unfolding discontinuity commit interrupted
  discontinuity_winds_down now reason p = (
    interrupt_all-WoundDown (gap_marked D p.state now reason) now reason p.state.accounts,
    refl,
    refl,
    refl,
  )
