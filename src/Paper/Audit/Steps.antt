-- ===== src/Paper/Audit/Steps.antt =====
-- The audit over `onQuote`'s rounds: what each writes agrees with the fills.
use tidal_crypto_intelligenc.Base.{
  ℕ, ◌≡◌, refl, Bool, true, false, List, [], ◌∷◌, ◌++◌, none, some, arith, All, String, str_eq, ltb,
  if◌then◌else◌, Bool-cases, inl, inr, ◌∙◌, some_inv,
}
use mathlib.Core.List.{append-nil}
use mathlib.Core.Path.{subst}
use tidal_crypto_intelligenc.Paper.Decimal.{DecimalOps, DecimalLaws, nil, is_positive}
use tidal_crypto_intelligenc.Paper.Types.{Quote, Intent, Trade, Fill, Account, State}
use tidal_crypto_intelligenc.Paper.Trading.{mark, fill_trade, execution, exit_side}
use tidal_crypto_intelligenc.Paper.Quotes.{
  watch, due, close_size, close_part, booked, fee_of, hold, open_trade, opened, refusal, filtered,
  order_quantity, enter,
}
use tidal_crypto_intelligenc.Paper.Quotes.Entries.{reason_clear, refusal_clear}
use tidal_crypto_intelligenc.Paper.Admission.{admission}
use tidal_crypto_intelligenc.Paper.Store.{Store}
use tidal_crypto_intelligenc.Paper.Audit.{no_sums, audit_fill}
use tidal_crypto_intelligenc.Paper.Audit.Books.{
  IsAudited, IsCovered, covered_quote, IsAudited-Same, watch-Same, mark-Same, close_part-IsAudited,
  audit_one,
}

module _ (D : DecimalOps) (L : DecimalLaws D) (cursor : ℕ) where
  open D use {Decimal, add, sub, mul, less, equal, least}

  -- The rows that a round writes, and the position that it leaves, agree with the fills.
  abbrev pub Agreed : Decimal → List (Fill D) → Account D × List (Trade D) → Type 0
  Agreed n fs (a, rows) =
      All (λ u. IsAudited D L cursor n u fs) rows
      × ((u : Trade D) → a.position ≡ some u → IsAudited D L cursor n u fs)

  booked_position :
      (a : Account D) (closed u : Trade D) (gross fee : Decimal) (at : ℕ)
      → (booked D a closed gross fee at).position ≡ some u
      → closed ≡ u
  unfolding booked
  booked_position a closed u gross fee at h = ground arith

  close_size_bounded : (q : Quote D) (t : Trade D) → less t.remaining (close_size D q t) ≡ false
  unfolding close_size
  close_size_bounded q t = (L.least_bounds (execution D q (exit_side D t)).1 t.remaining).1

  close_part-Agreed :
      (n : Decimal) (a : Account D) (t : Trade D) (qty price fee : Decimal) (q : Quote D)
      (fs : List (Fill D))
      → IsAudited D L cursor n (close_part D t qty price q).0 fs
      → let c = close_part D t qty price q in Agreed n fs (booked D a c.0 c.2 fee q.at, c.1.trades)
  unfolding close_part
  close_part-Agreed n a t qty price fee q fs k =
      let c = close_part D t qty price q in
      (
        (k, tt),
        λ u h. subst (λ v. IsAudited D L cursor n v fs) (booked_position a c.0 u c.2 fee q.at h) k,
      )

  -- Marking, triggering and closing a position keep its audit: the row written and the position
  -- left agree with the fills so far and the fill of the round.
  pub hold-Agreed :
      (n : Decimal) (p : Store D) (gap : Bool) (q : Quote D) (a : Account D) (t : Trade D)
      (fs : List (Fill D))
      → IsCovered D L cursor q
      → IsAudited D L cursor n t fs
      → let r = hold D p gap q a t in Agreed n (fs ++ r.1.fills) (r.0, r.1.trades)
  unfolding hold
  hold-Agreed n p gap q a t fs c au =
      let w = watch D gap a.group q t in
      let qty = close_size D q w in
      let price = (execution D q (exit_side D w)).0 in
      let seen = IsAudited-Same D L cursor n t w fs (watch-Same D L cursor gap a.group q t) au in
      let closed =
        close_part-IsAudited D L cursor n w qty price q fs c seen (close_size_bounded q w) in
      elim (Bool-cases (due D p q w qty)) [
        | inl e ↦ rw e (close_part-Agreed n a w qty price (fee_of D w qty price) q _ closed)
        | inr e ↦
            rw (e, append-nil fs)
              ((seen, tt), λ u h. subst (λ v. IsAudited D L cursor n v fs) (some_inv h) seen)
      ]

  nil_add : (d : Decimal) → add (nil D) d ≡ d
  nil_add d = L.add_comm (nil D) d ∙ L.add_nil d

  positive_not_negative : (d : Decimal) → is_positive D d ≡ true → less d (nil D) ≡ false
  positive_not_negative d h = elim (Bool-cases (less d (nil D))) [
    | inr e ↦ e
    | inl e ↦ cc (L.less_trans (nil D) d (nil D) h e, L.less_irrefl (nil D))
  ]

  audit_open :
      (t : Trade D) (f : Fill D)
      → IsCovered D L cursor f.quote
      → f.kind ≡ "open"
      → is_positive D f.quantity ≡ true
      → audit_fill D cursor t f (no_sums D)
        ≡ some (record {
          quantity = f.quantity;
          gross = nil D;
          fees = f.fee;
          slippage = f.slippage;
          funding = nil D;
          fills = 1;
        })
  unfolding audit_fill
  audit_open t f c k h =
      simp (covered_quote D L cursor f.quote c, k, nil_add, positive_not_negative f.quantity h)

  open_trade_plain :
      (s : State D) (a : Account D) (i : Intent D) (qty price : Decimal) (q : Quote D)
      → let t = open_trade D s a i qty price q in
        (t.remaining ≡ qty) × (t.gross ≡ nil D) × (t.funding ≡ nil D) × (t.fill_count ≡ 0)
  unfolding open_trade
  open_trade_plain s a i qty price q = ground arith

  opened-IsAudited :
      (t : Trade D) (side : String) (qty price : Decimal) (q : Quote D)
      → IsCovered D L cursor q
      → is_positive D qty ≡ true
      → t.remaining ≡ qty
      → t.gross ≡ nil D
      → t.funding ≡ nil D
      → t.fill_count ≡ 0
      → let r = fill_trade D t "open" side qty price q in
        IsAudited D L cursor
          (nil D)
          (mark D (record (r.0) { fees = r.1.fee; slippage = r.1.slippage }) q)
          (r.1 ∷ [])
  unfolding fill_trade
  opened-IsAudited t side qty price q c h rem gross funding count =
      let r = fill_trade D t "open" side qty price q in
      let paid : Trade D = record (r.0) { fees = r.1.fee; slippage = r.1.slippage } in
      IsAudited-Same D L cursor (nil D) paid (mark D paid q) (r.1 ∷ [])
        (mark-Same D L cursor paid q)
        (record {
          sums = record {
            quantity = qty;
            gross = nil D;
            fees = r.1.fee;
            slippage = r.1.slippage;
            funding = nil D;
            fills = 1;
          };
          read = audit_one D L cursor paid r.1 (no_sums D) _ (audit_open paid r.1 c refl h);
          quantity = rem;
          gross = gross;
          fees = refl;
          slippage = refl;
          funding = funding;
          uncharged = refl;
          fills = omega arith;
        })

  -- An opened trade agrees with its one fill.
  pub opened-Agreed :
      (s : State D) (a : Account D) (i : Intent D) (qty price : Decimal) (q : Quote D)
      → IsCovered D L cursor q
      → is_positive D qty ≡ true
      → let r = opened D s a i qty price q in Agreed (nil D) r.1.fills (r.0, r.1.trades)
  unfolding opened
  opened-Agreed s a i qty price q c h =
      let (rem, gross, funding, count) = open_trade_plain s a i qty price q in
      let k =
        opened-IsAudited (open_trade D s a i qty price q) i.signal.direction qty price q c h rem
          gross funding count in
      (
        (k, tt),
        λ u e.
            subst (λ v. IsAudited D L cursor (nil D) v (opened D s a i qty price q).1.fills)
              (some_inv e) k,
      )

  filtered_positive :
      (p : Store D) (qty price : Decimal)
      → filtered D p qty price ≡ false
      → is_positive D qty ≡ true
  unfolding filtered
  filtered_positive p qty price h = ground arith

  refusal_positive :
      (p : Store D) (a : Account D) (qty price size : Decimal)
      → str_eq (refusal D p a qty price size) "" ≡ true
      → is_positive D qty ≡ true
  refusal_positive p a qty price size h =
      filtered_positive p qty price (refusal_clear D p a qty price size h).0

  -- Whether or not an intent is filled, the account agrees with the round's fills.
  pub enter-Agreed :
      (p : Store D) (s : State D) (protected : Bool) (q : Quote D) (a : Account D) (i : Intent D)
      → IsCovered D L cursor q
      → a.position ≡ none
      → let r = enter D p s protected q a i in Agreed (nil D) r.1.fills (r.0, r.1.trades)
  unfolding enter
  enter-Agreed p s protected q a i c h =
      let deal = execution D q i.signal.direction in
      let qty = order_quantity D p deal.0 in
      let admitted = admission D p s i q.at protected in
      let reason = if str_eq admitted "" then refusal D p a qty deal.0 deal.1 else admitted in
      elim (Bool-cases (ltb q.at i.after)) [
        | inl e ↦ rw e (tt, λ u k. cc)
        | inr e ↦ elim (Bool-cases (str_eq reason "")) [
          | inl f ↦
              rw (e, f)
                (opened-Agreed s a i qty deal.0 q c (
                  refusal_positive p a qty deal.0 deal.1
                    (reason_clear admitted (refusal D p a qty deal.0 deal.1) f).1))
          | inr f ↦ rw (e, f) (tt, λ u k. cc)
        ]
      ]
