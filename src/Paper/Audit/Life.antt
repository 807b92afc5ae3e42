-- ===== src/Paper/Audit/Life.antt =====
-- The audit over the whole life of an account: any quotes and settlements, in any states of the store.
use mathlib.Core.Path.{subst}
use text.Mathlib.TextEquality.{eq_iff}
use tidal_crypto_intelligenc.Base.{
  ℕ, ◌≡◌, refl, sym, ap, ◌∙◌, true, List, [], ◌∷◌, ◌++◌, All, Option, none, some, some_inv,
  if◌then◌else◌, if-split, String, arith,
}
use tidal_crypto_intelligenc.Paper.Decimal.{DecimalOps, DecimalLaws, is_positive}
use tidal_crypto_intelligenc.Paper.Types.{Trade, Fill, Account, Intent}
use tidal_crypto_intelligenc.Paper.Quotes.{visit, Round}
use tidal_crypto_intelligenc.Paper.Settlement.{
  Funding, FundingEntry, entry_of, same_id, with_position,
}
use tidal_crypto_intelligenc.Paper.Audit.{Sums, no_sums, audit_funding, audit_trade, agrees}
use tidal_crypto_intelligenc.Paper.Audit.Books.{IsAudited, IsCovered, funded-IsAudited}
use tidal_crypto_intelligenc.Paper.Audit.Steps.{hold-Agreed, enter-Agreed}

module _ (D : DecimalOps) where
  open D use {Decimal, add}

  -- What happens to an account.
  pub data Event : Type 0 where
    quoted : Round D → Event
    settled : Funding D → Event

  -- An account, and the fills and the charges of its open trade, if it has one.
  pub record Books : Type 0 where
    pub account : Account D
    pub fills : List (Fill D)
    pub charges : List (FundingEntry D)

  -- After a round of `onQuote`: a trade that opens starts new books.
  abbrev pub after_quote : Option (Trade D) → Account D → List (Fill D) → Books → Books
  after_quote none a new b = record { account = a; fills = new; charges = [] }
  after_quote (some t) a new b = record b { account = a; fills = b.fills ++ new }

  -- After a settlement, which charges the trade if it holds anything then.
  abbrev pub after_settlement : Funding D → Option (Trade D) → Books → Books
  after_settlement f none b = b
  after_settlement f (some t) b =
      let e = entry_of D b.fills f t in
      let paid = record t { funding = add t.funding e.amount } in
      let a = record (b.account) { funding = add b.account.funding e.amount } in
      if is_positive D e.quantity
      then record b { account = (with_position D paid a (some t)).0; charges = b.charges ++ e ∷ [] }
      else b

  unfoldable pub happen : Event → Books → Books
  happen (quoted r) b =
      let a = b.account in
      let v = visit D r.store r.state r.protected r.quote a a.position a.pending in
      after_quote a.position v.0 v.1.fills b
  happen (settled f) b = after_settlement f b.account.position b

  unfoldable pub live_on : List Event → Books → Books
  unfolding happen
  live_on [] b = b
  live_on (e ∷ es) b = live_on es (happen e b)

module _ (D : DecimalOps) (L : DecimalLaws D) (cursor : ℕ) where
  open D use {Decimal, add}

  -- The cursor covers the quotes.
  abbrev pub Read : Event D → Type 0
  Read (quoted r) = IsCovered D L cursor r.quote
  Read (settled f) = Unit

  abbrev total : List (FundingEntry D) → Decimal
  total es = (audit_funding D es (no_sums D)).funding

  abbrev Kept : Books D → Type 0
  Kept b =
      (u : Trade D) → b.account.position ≡ some u → IsAudited D L cursor (total b.charges) u b.fills

  quote-Kept :
      (r : Round D) (b : Books D) (o : Option (Trade D)) (i : Option (Intent D))
      → IsCovered D L cursor r.quote
      → b.account.position ≡ o
      → Kept b
      → let v = visit D r.store r.state r.protected r.quote b.account o i in
        Kept (after_quote D o v.0 v.1.fills b)
  unfolding visit audit_funding
  quote-Kept r b (some t) i c e k =
      (hold-Agreed D L cursor (total b.charges) r.store r.state.gap r.quote b.account t b.fills c
        (k t e)).1
  quote-Kept r b none (some i) c e k =
      (enter-Agreed D L cursor r.store r.state r.protected r.quote b.account i c e).1
  quote-Kept r b none none c e k = λ u h. cc

  total-append :
      (es : List (FundingEntry D)) (e : FundingEntry D) (v : Sums D)
      → (audit_funding D (es ++ e ∷ []) v).funding ≡ add (audit_funding D es v).funding e.amount
  unfolding audit_funding
  total-append [] e v = refl
  total-append (d ∷ es) e v = total-append es e (record v { funding = add v.funding d.amount })

  same_id_refl : (i : String × String × String) → same_id i i ≡ true
  same_id_refl (a, b, c) = rw ((eq_iff a a).1 refl, (eq_iff b b).1 refl, (eq_iff c c).1 refl) refl

  charged_position :
      (paid t u : Trade D) (a : Account D)
      → paid.id ≡ t.id
      → (with_position D paid a (some t)).0.position ≡ some u
      → record t { funding = paid.funding } ≡ u
  charged_position paid t u a e h = some_inv (rw (e, same_id_refl t.id) at h)

  settlement-Kept :
      (f : Funding D) (b : Books D) (o : Option (Trade D))
      → b.account.position ≡ o
      → Kept b
      → Kept (after_settlement D f o b)
  settlement-Kept f b none e k = k
  settlement-Kept f b (some t) e k =
      let x = entry_of D b.fills f t in
      let paid : Trade D = record t { funding = add t.funding x.amount } in
      let a : Account D = record (b.account) { funding = add b.account.funding x.amount } in
      let grown = total-append b.charges x (no_sums D) in
      let one = funded-IsAudited D L cursor (total b.charges) x.amount t b.fills (k t e) in
      if-split Kept (is_positive D x.quantity) _ b
        (λ p u h.
          subst (λ n. IsAudited D L cursor n u b.fills) (sym grown)
            (subst (λ v. IsAudited D L cursor (add (total b.charges) x.amount) v b.fills)
              (charged_position paid t u a refl h) one))
        (λ p. k)

  happen-Kept : (e : Event D) (b : Books D) → Read e → Kept b → Kept (happen D e b)
  unfolding happen
  happen-Kept (quoted r) b c k = quote-Kept r b b.account.position b.account.pending c refl k
  happen-Kept (settled f) b c k = settlement-Kept f b b.account.position refl k

  live_on-Kept : (es : List (Event D)) (b : Books D) → All Read es → Kept b → Kept (live_on D es b)
  unfolding live_on
  live_on-Kept [] b c k = k
  live_on-Kept (e ∷ es) b c k = live_on-Kept es (happen D e b) c.1 (happen-Kept e b c.0 k)

  -- The charges change the funding alone, from where it stands.
  audit_funding-keeps :
      (es : List (FundingEntry D)) (v w : Sums D)
      → v.funding ≡ w.funding
      → let r = audit_funding D es v in
        (r.quantity ≡ v.quantity)
        × (r.gross ≡ v.gross)
        × (r.fees ≡ v.fees)
        × (r.slippage ≡ v.slippage)
        × (r.funding ≡ (audit_funding D es w).funding)
        × (r.fills ≡ v.fills)
  unfolding audit_funding
  audit_funding-keeps [] v w h = (refl, refl, refl, refl, h, refl)
  audit_funding-keeps (e ∷ es) v w h =
      audit_funding-keeps es (record v { funding = add v.funding e.amount })
        (record w { funding = add w.funding e.amount }) (ap (λ d. add d e.amount) h)

  IsAudited-agrees :
      (t : Trade D) (fs : List (Fill D)) (es : List (FundingEntry D))
      (a : IsAudited D L cursor (total es) t fs)
      → agrees D t (audit_funding D es a.sums) ≡ true
  unfolding agrees
  IsAudited-agrees t fs es a =
      let v = audit_funding D es a.sums in
      let (q, g, f, s, n, c) = audit_funding-keeps es a.sums (no_sums D) a.uncharged in
      ground (
        arith,
        (L.equal_iff t.remaining v.quantity).1 (a.quantity ∙ sym q),
        (L.equal_iff t.gross v.gross).1 (a.gross ∙ sym g),
        (L.equal_iff t.fees v.fees).1 (a.fees ∙ sym f),
        (L.equal_iff t.slippage v.slippage).1 (a.slippage ∙ sym s),
        (L.equal_iff t.funding v.funding).1 (a.funding ∙ sym n),
        a.fills,
        c,
      )

  -- From an account without a position, after any quotes that the cursor covers and any settlements:
  -- what `reconcile` adds up from the fills and the charges of the open trade, in order, meets no
  -- error, and the trade's stored remaining quantity, profit, fees, slippage, funding and number of
  -- fills agree with it.
  pub live_on-agrees :
      (es : List (Event D)) (a : Account D) (u : Trade D)
      → a.position ≡ none
      → All Read es
      → let end = live_on D es (record { account = a; fills = []; charges = [] }) in
        end.account.position ≡ some u
        → (v : Sums D) × (audit_trade D cursor u end.fills end.charges ≡ some v)
          × (agrees D u v ≡ true)
  unfolding audit_trade
  live_on-agrees es a u e c h =
      let start : Books D = record { account = a; fills = []; charges = [] } in
      let end = live_on D es start in
      let k = live_on-Kept es start c (λ t q. cc) u h in
      (
        audit_funding D end.charges k.sums,
        rw k.read refl,
        IsAudited-agrees u end.fills end.charges k,
      )
