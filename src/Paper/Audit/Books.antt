-- ===== src/Paper/Audit/Books.antt =====
-- The engine's trades agree with their fills: opening and closing keep the audit of `reconcile`.
use tidal_crypto_intelligenc.Base.{
  ap, ℕ, ◌+◌, ◌≤◌, ◌<◌, ◌||◌, leb, ltb, ◌≡◌, refl, Bool, false, List, [], ◌∷◌, ◌++◌, some, arith,
  Bool-cases, Option-cases, some_inv, inl, inr, ◌∙◌, String,
}
use tidal_crypto_intelligenc.Paper.Decimal.{DecimalOps, DecimalLaws, nil}
use tidal_crypto_intelligenc.Paper.Types.{Quote, Trade, Fill, sign, flag}
use tidal_crypto_intelligenc.Paper.Trading.{mark, trigger, fill_trade, exit_side}
use tidal_crypto_intelligenc.Paper.Quotes.{watch, risk_exit, close_part}
use tidal_crypto_intelligenc.Paper.Gap.{spoil}
use tidal_crypto_intelligenc.Paper.Audit.{Sums, no_sums, audit_fill, audit_from}

module _ (D : DecimalOps) (L : DecimalLaws D) (cursor : ℕ) where
  open D use {Decimal, add, sub, mul, less, equal, least}

  -- The audit of the fills passes and agrees with the trade, whose funding is `charged`.
  pub record IsAudited (charged : Decimal) (t : Trade D) (fs : List (Fill D)) : Type 0 where
    pub sums : Sums D
    pub read : audit_from D cursor t fs (no_sums D) ≡ some sums
    pub quantity : t.remaining ≡ sums.quantity
    pub gross : t.gross ≡ sums.gross
    pub fees : t.fees ≡ sums.fees
    pub slippage : t.slippage ≡ sums.slippage
    pub funding : t.funding ≡ charged
    pub uncharged : sums.funding ≡ nil D
    pub fills : t.fill_count ≡ sums.fills

  audit_from-append :
      (t : Trade D) (fs : List (Fill D)) (f : Fill D) (v w : Sums D)
      → audit_from D cursor t fs v ≡ some w
      → audit_from D cursor t (fs ++ f ∷ []) v ≡ audit_from D cursor t (f ∷ []) w
  unfolding audit_from
  audit_from-append t [] f v w h = rw (some_inv h)
  audit_from-append t (g ∷ gs) f v w h = elim (Option-cases (audit_fill D cursor t g v)) [
    | inl e ↦ cc (rw e at h)
    | inr (u, e) ↦ rw e (audit_from-append t gs f u w (rw e at h))
  ]

  pub audit_one :
      (t : Trade D) (f : Fill D) (v w : Sums D)
      → audit_fill D cursor t f v ≡ some w
      → audit_from D cursor t (f ∷ []) v ≡ some w
  unfolding audit_from
  audit_one t f v w h = rw h

  -- Two trades that no fill tells apart.
  pub record Same (t u : Trade D) : Type 0 where
    pub entry : u.entry ≡ t.entry
    pub signal : u.signal ≡ t.signal
    pub remaining : u.remaining ≡ t.remaining
    pub gross : u.gross ≡ t.gross
    pub fees : u.fees ≡ t.fees
    pub slippage : u.slippage ≡ t.slippage
    pub funding : u.funding ≡ t.funding
    pub fills : u.fill_count ≡ t.fill_count

  Same-trans : {t u w : Trade D} → Same t u → Same u w → Same t w
  Same-trans a b = record {
    entry = b.entry ∙ a.entry;
    signal = b.signal ∙ a.signal;
    remaining = b.remaining ∙ a.remaining;
    gross = b.gross ∙ a.gross;
    fees = b.fees ∙ a.fees;
    slippage = b.slippage ∙ a.slippage;
    funding = b.funding ∙ a.funding;
    fills = b.fills ∙ a.fills;
  }

  pub mark-Same : (t : Trade D) (q : Quote D) → Same t (mark D t q)
  unfolding mark
  mark-Same t q = ground arith

  trigger-Same : (r : String) (at : ℕ) (t : Trade D) → Same t (trigger D r at t)
  unfolding trigger
  trigger-Same r at t = ground arith

  spoil-Same : (at : ℕ) (t : Trade D) → Same t (spoil D at t)
  unfolding spoil flag trigger
  spoil-Same at t = ground arith

  risk_exit-Same : (t : Trade D) (q : Quote D) → Same t (risk_exit D t q)
  unfolding risk_exit trigger
  risk_exit-Same t q = ground arith

  pub watch-Same :
      (gap : Bool) (g : String) (q : Quote D) (t : Trade D) → Same t (watch D gap g q t)
  unfolding watch
  watch-Same gap g q t = ground (
    arith,
    mark-Same t q,
    spoil-Same q.at (mark D t q),
    risk_exit-Same (mark D t q) q,
    risk_exit-Same (spoil D q.at (mark D t q)) q,
  )

  pub audit_fill-Same :
      (t u : Trade D) (f : Fill D) (v : Sums D)
      → u.entry ≡ t.entry
      → u.signal ≡ t.signal
      → audit_fill D cursor u f v ≡ audit_fill D cursor t f v
  unfolding audit_fill sign
  audit_fill-Same t u f v e g = simp (e, g)

  audit_from-Same :
      (t u : Trade D) (fs : List (Fill D)) (v : Sums D)
      → u.entry ≡ t.entry
      → u.signal ≡ t.signal
      → audit_from D cursor u fs v ≡ audit_from D cursor t fs v
  unfolding audit_from
  audit_from-Same t u [] v e g = refl
  audit_from-Same t u (f ∷ fs) v e g = elim (Option-cases (audit_fill D cursor t f v)) [
    | inl h ↦ rw (audit_fill-Same t u f v e g, h)
    | inr (w, h) ↦ rw (audit_fill-Same t u f v e g, h) (audit_from-Same t u fs w e g)
  ]

  pub IsAudited-Same :
      (n : Decimal) (t u : Trade D) (fs : List (Fill D))
      → Same t u
      → IsAudited n t fs
      → IsAudited n u fs
  IsAudited-Same n t u fs s a = record {
    sums = a.sums;
    read = audit_from-Same t u fs (no_sums D) s.entry s.signal ∙ a.read;
    quantity = s.remaining ∙ a.quantity;
    gross = s.gross ∙ a.gross;
    fees = s.fees ∙ a.fees;
    slippage = s.slippage ∙ a.slippage;
    funding = s.funding ∙ a.funding;
    uncharged = a.uncharged;
    fills = s.fills ∙ a.fills;
  }

  -- A charge goes into the trade's funding.
  pub funded-IsAudited :
      (n amount : Decimal) (t : Trade D) (fs : List (Fill D))
      → IsAudited n t fs
      → IsAudited (add n amount) (record t { funding = add t.funding amount }) fs
  funded-IsAudited n amount t fs a = record {
    sums = a.sums;
    read =
        audit_from-Same t (record t { funding = add t.funding amount }) fs (no_sums D) refl refl
        ∙ a.read;
    quantity = a.quantity;
    gross = a.gross;
    fees = a.fees;
    slippage = a.slippage;
    funding = ap (λ d. add d amount) a.funding;
    uncharged = a.uncharged;
    fills = a.fills;
  }

  -- Taking no more than is there leaves no negative quantity.
  sub_not_negative : (r q : Decimal) → less r q ≡ false → less (sub r q) (nil D) ≡ false
  sub_not_negative r q h = elim (Bool-cases (less (sub r q) (nil D))) [
    | inr e ↦ e
    | inl e ↦
        let below = L.less_add (sub r q) (nil D) q e in
        let same = rw (L.sub_add r q, L.add_comm (nil D) q, L.add_nil q) at below in cc
  ]

  -- One more fill, on a trade that its fields follow.
  IsAudited-append :
      (n : Decimal) (t u : Trade D) (f : Fill D) (fs : List (Fill D)) (a : IsAudited n t fs)
      (w : Sums D)
      → u.entry ≡ t.entry
      → u.signal ≡ t.signal
      → audit_fill D cursor t f a.sums ≡ some w
      → u.remaining ≡ w.quantity
      → u.gross ≡ w.gross
      → u.fees ≡ w.fees
      → u.slippage ≡ w.slippage
      → u.funding ≡ n
      → w.funding ≡ nil D
      → u.fill_count ≡ w.fills
      → IsAudited n u (fs ++ f ∷ [])
  IsAudited-append n t u f fs a w e g h r gr fe sl fu un fi = record {
    sums = w;
    read =
        audit_from-Same t u (fs ++ f ∷ []) (no_sums D) e g
        ∙ audit_from-append t fs f (no_sums D) a.sums a.read
        ∙ audit_one t f a.sums w h;
    quantity = r;
    gross = gr;
    fees = fe;
    slippage = sl;
    funding = fu;
    uncharged = un;
    fills = fi;
  }

  abbrev sold : Trade D → Fill D → Sums D → Sums D
  sold t f v = record {
    quantity = sub v.quantity f.quantity;
    gross = add v.gross (mul (mul (sub f.price t.entry) f.quantity) (sign D t));
    fees = add v.fees f.fee;
    slippage = add v.slippage f.slippage;
    funding = v.funding;
    fills = v.fills + 1;
  }

  -- The quote of a fill is one that the cursor covers.
  abbrev pub IsCovered : Quote D → Type 0
  IsCovered q = (0 < q.id) × (q.id ≤ cursor)

  pub covered_quote : (q : Quote D) → IsCovered q → (leb q.id 0 || ltb cursor q.id) ≡ false
  covered_quote q c = ground arith

  audit_close :
      (t : Trade D) (f : Fill D) (v : Sums D)
      → IsCovered f.quote
      → f.kind ≡ "close"
      → less (sub v.quantity f.quantity) (nil D) ≡ false
      → audit_fill D cursor t f v ≡ some (sold t f v)
  unfolding audit_fill
  audit_close t f v c k h = simp (covered_quote f.quote c, k, h)

  -- A closing fill of no more than remains keeps the audit.
  pub close_part-IsAudited :
      (n : Decimal) (t : Trade D) (qty price : Decimal) (q : Quote D) (fs : List (Fill D))
      → IsCovered q
      → IsAudited n t fs
      → less t.remaining qty ≡ false
      → IsAudited n (close_part D t qty price q).0 (fs ++ (close_part D t qty price q).1.fills)
  unfolding close_part fill_trade
  close_part-IsAudited n t qty price q fs c a h =
      let f = (fill_trade D t "close" (exit_side D t) qty price q).1 in
      IsAudited-append n t (close_part D t qty price q).0 f fs a (sold t f a.sums) refl refl
        (audit_close t f a.sums c refl (sub_not_negative a.sums.quantity qty (rw a.quantity at h)))
        (rw a.quantity) (rw a.gross) (rw a.fees) (rw a.slippage) a.funding a.uncharged (rw a.fills)
