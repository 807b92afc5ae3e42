-- ===== src/Paper/Quotes/Delay.antt =====
-- The second that `onQuote` (internal/datahub/paper_engine.go) waits between a trigger and a close.
use tidal_crypto_intelligenc.Base.{
  ℕ, ◌+◌, ◌≤◌, ◌<◌, ◌≡◌, inl, refl, sym, ◌∙◌, Option, none, some, some_inv, true, List, [], ◌∷◌,
  ◌++◌, All, arith, str_eq, second,
}
use mathlib.Core.Path.{subst}
use tidal_crypto_intelligenc.Paper.Decimal.{DecimalOps}
use tidal_crypto_intelligenc.Paper.Types.{Trade, Fill, Account}
use tidal_crypto_intelligenc.Paper.Quotes.{visit, Round}
use tidal_crypto_intelligenc.Paper.Quotes.Exits.{Later, Held, hold_waits}

module _ (D : DecimalOps) where
  -- The fills of an account over some rounds.
  unfoldable pub fills_on : List (Round D) → Account D → List (Fill D)
  fills_on [] a = []
  fills_on (r ∷ rs) a =
      let v = visit D r.store r.state r.protected r.quote a a.position a.pending in
      v.1.fills ++ fills_on rs v.0

  -- The quote of a round lies in the second from `at` on.
  abbrev pub Within : ℕ → Round D → Type 0
  Within at r = (at ≤ r.quote.at) × (r.quote.at < at + second)

  visit-Held :
      (r : Round D) (a : Account D) (at : ℕ) (o : Option (Trade D))
      → a.position ≡ o
      → Within at r
      → Held D at a
      → let v = visit D r.store r.state r.protected r.quote a o a.pending in
        (v.1.fills ≡ []) × Held D at v.0
  unfolding visit
  visit-Held r a at none e w h = cc (e, h.position)
  visit-Held r a at (some t) e w h =
      hold_waits D r.store r.state.gap r.quote a t at w.0 w.1
        (subst (Later D at) (some_inv (sym h.position ∙ e)) h.later)

  fills_on-Held :
      (rs : List (Round D)) (a : Account D) (at : ℕ)
      → All (Within at) rs
      → Held D at a
      → fills_on rs a ≡ []
  unfolding fills_on
  fills_on-Held [] a at ws h = refl
  fills_on-Held (r ∷ rs) a at ws h =
      let k = visit-Held r a at a.position refl ws.0 h in
      let v = visit D r.store r.state r.protected r.quote a a.position a.pending in
      rw k.0 (fills_on-Held rs v.0 at ws.1 k.1)

  -- A position whose exit is not triggered is closed neither on the next quote, which may trigger it,
  -- nor on any of the quotes in the second from that quote on.
  pub fills_on_waits :
      (r : Round D) (rs : List (Round D)) (a : Account D) (t : Trade D)
      → a.position ≡ some t
      → str_eq t.exit_reason "" ≡ true
      → All (Within r.quote.at) rs
      → fills_on (r ∷ rs) a ≡ []
  fills_on_waits r rs a t e h ws =
      fills_on-Held (r ∷ rs) a r.quote.at ((omega arith, omega arith), ws)
        (record { trade = t; position = e; later = inl h })
