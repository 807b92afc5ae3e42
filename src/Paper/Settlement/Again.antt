-- ===== src/Paper/Settlement/Again.antt =====
-- A settlement is charged once.
use tidal_crypto_intelligenc.Base.{
  ℕ, ◌≡◌, ◌⊎◌, refl, sym, ap, ◌∙◌, Bool, true, false, not, ◌&&◌, ◌||◌, ltb, ◌==◌, if◌then◌else◌,
  some, List, [], ◌∷◌, ◌++◌, All, unix_milli, arith, ==_iff, if-split, Bool-cases, Option-cases,
  inl, inr,
}
use mathlib.Core.List.{append_assoc, append-nil}
use mathlib.Core.Path.{subst}
use tidal_crypto_intelligenc.Paper.Decimal.{DecimalOps, DecimalLaws, is_positive}
use tidal_crypto_intelligenc.Paper.Settlement.{
  Funding, Books, Draft, Outcome, drafted, invalid, conflicting, find_settlement, recorded,
  charge_all, charge, may_hold, settle_one, settle_all, settled_state, distinct_times, put_trades,
  committed, closed, start, settle,
}

module _ (D : DecimalOps) where
  open D use {Decimal, equal}

  -- The table has a row for the record, with its rate and mark price.
  pub record IsSettled (rows : List (Funding D)) (f : Funding D) : Type 0 where
    pub row : Funding D
    pub found : find_settlement D (unix_milli f.at) rows ≡ some row
    pub same : (equal row.rate f.rate && equal row.mark f.mark) ≡ true

  abbrev IsDue : ℕ → Funding D → Type 0
  IsDue through f = (not (is_positive D f.mark) || ltb through f.at) ≡ false

  drafted_inv : {d e : Draft D} → drafted d ≡ drafted e → d ≡ e
  drafted_inv h = cc

  -- Records that are settled already change nothing.
  settle_all-settled :
      (b : Books D) (through : ℕ) (fs : List (Funding D)) (d : Draft D)
      → All (IsDue through) fs
      → All (IsSettled b.settlements) fs
      → settle_all D b through fs d ≡ drafted d
  unfolding settle_all settle_one
  settle_all-settled b through [] d h k = refl
  settle_all-settled b through (f ∷ fs) d h k =
      simp (h.0, (k.0).found, (k.0).same, settle_all-settled b through fs d h.1 k.1)

  -- In a table with one row for a millisecond, a row is found by its time.
  abbrev Found : List (Funding D) → Funding D → Type 0
  Found rows f = find_settlement D (unix_milli f.at) rows ≡ some f

  find_append :
      (at : ℕ) (xs ys : List (Funding D)) (x : Funding D)
      → find_settlement D at xs ≡ some x
      → find_settlement D at (xs ++ ys) ≡ some x
  unfolding find_settlement
  find_append at [] ys x h = cc
  find_append at (f ∷ fs) ys x h = elim (Bool-cases (unix_milli f.at == at)) [
    | inl e ↦ rw e (rw e at h)
    | inr e ↦ rw e (find_append at fs ys x (rw e at h))
  ]

  find_last :
      (xs ys : List (Funding D)) (f : Funding D)
      → distinct_times D (xs ++ f ∷ ys) ≡ true
      → find_settlement D (unix_milli f.at) (xs ++ f ∷ ys) ≡ some f
  unfolding find_settlement distinct_times
  find_last [] ys f h = rw ((==_iff (unix_milli f.at) (unix_milli f.at)).1 refl) refl
  find_last (x ∷ xs) ys f h =
      elim (Option-cases (find_settlement D (unix_milli x.at) (xs ++ f ∷ ys))) [
        | inr (y, e) ↦ let n = rw (e, distinct_times) at h in cc
        | inl e ↦
            let rest = find_last xs ys f (rw (e, distinct_times) at h) in
            elim (Bool-cases (unix_milli x.at == unix_milli f.at)) [
              | inr g ↦ rw g rest
              | inl g ↦
                  let same = (==_iff (unix_milli x.at) (unix_milli f.at)).0 g in
                  let n =
                    subst (λ t. find_settlement D t (xs ++ f ∷ ys) ≡ some f) (sym same) rest in
                  cc
            ]
      ]

  charge_settlements :
      (b : Books D) (f : Funding D) (d : Draft D) (ts : List _)
      → (charge_all D b.fills f ts d).settlements ≡ d.settlements
  unfolding charge_all charge
  charge_settlements b f d [] = refl
  charge_settlements b f d (t ∷ ts) =
      charge_settlements b f (if may_hold D (unix_milli f.at) t then charge D b.fills f t d else d)
        ts
      ∙ if-split (λ (e : Draft D). e.settlements ≡ d.settlements) (may_hold D (unix_milli f.at) t)
          (charge D b.fills f t d) d
          (λ h.
            if-split (λ (e : Draft D). e.settlements ≡ d.settlements) _ _ d (λ k. refl) (λ k. refl))
          (λ h. refl)

  -- The first record of a run that is drafted.
  record Step (b : Books D) (through : ℕ) (f : Funding D) (fs : List (Funding D)) (d e : Draft D)
      : Type 0 where
    due : IsDue through f
    next : Draft D
    rest : settle_all D b through fs next ≡ drafted e
    way : ((next ≡ d) × IsSettled b.settlements f) ⊎ (next.settlements ≡ d.settlements ++ f ∷ [])

  step :
      (b : Books D) (through : ℕ) (f : Funding D) (fs : List (Funding D)) (d e : Draft D)
      → settle_all D b through (f ∷ fs) d ≡ drafted e
      → Step b through f fs d e
  unfolding settle_all settle_one
  step b through f fs d e h = elim (Bool-cases (not (is_positive D f.mark) || ltb through f.at)) [
    | inl g ↦ let n = rw (settle_all, settle_one, g) at h in cc
    | inr g ↦ elim (Option-cases (find_settlement D (unix_milli f.at) b.settlements)) [
      | inl k ↦ record {
        due = g;
        next = recorded D b f d;
        rest = rw (settle_all, settle_one, g, k) at h;
        way = inr (ap (λ l. l ++ f ∷ []) (charge_settlements b f d b.trades));
      }
      | inr (x, k) ↦ elim (Bool-cases (equal x.rate f.rate && equal x.mark f.mark)) [
        | inr m ↦ let n = rw (settle_all, settle_one, g, k, m) at h in cc
        | inl m ↦ record {
          due = g;
          next = d;
          rest = rw (settle_all, settle_one, g, k, m) at h;
          way = inl (refl, record { row = x; found = k; same = m });
        }
      ]
    ]
  ]

  -- What the rows of a run are, and what a run that is drafted has settled.
  grown :
      (b : Books D) (through : ℕ) (fs : List (Funding D)) (d e : Draft D)
      → settle_all D b through fs d ≡ drafted e
      → (new : List (Funding D)) × (e.settlements ≡ d.settlements ++ new)
  unfolding settle_all
  grown b through [] d e h =
      let same = drafted_inv h in
      ([], ap (λ (z : Draft D). z.settlements) (sym same) ∙ sym (append-nil d.settlements))
  grown b through (f ∷ fs) d e h =
      let s = step b through f fs d e h in
      let (new, g) = grown b through fs s.next e s.rest in
      elim s.way [
        | inl (w, k) ↦ (new, g ∙ ap (λ (z : Draft D). z.settlements ++ new) w)
        | inr w ↦ (f ∷ new, g ∙ ap (λ l. l ++ new) w ∙ append_assoc d.settlements (f ∷ []) new)
      ]

  IsSettled-append :
      (rows more : List (Funding D)) (f : Funding D) → IsSettled rows f → IsSettled (rows ++ more) f
  IsSettled-append rows more f k = record {
    row = k.row;
    found = find_append (unix_milli f.at) rows more k.row k.found;
    same = k.same;
  }

  recorded-IsSettled :
      (rows : List (Funding D)) (d e : List (Funding D)) (new : List (Funding D)) (f : Funding D)
      → (equal f.rate f.rate && equal f.mark f.mark) ≡ true
      → e ≡ (d ++ f ∷ []) ++ new
      → distinct_times D (rows ++ e) ≡ true
      → IsSettled (rows ++ e) f
  recorded-IsSettled rows d e new f q h u =
      let shape : rows ++ e ≡ (rows ++ d) ++ f ∷ new =
        ap (λ l. rows ++ l) (h ∙ append_assoc d (f ∷ []) new)
        ∙ sym (append_assoc rows d (f ∷ new)) in
      subst (λ l. IsSettled l f) (sym shape)
        (record {
          row = f;
          found = find_last (rows ++ d) new f (subst (λ l. distinct_times D l ≡ true) shape u);
          same = q;
        })

  settles :
      (b : Books D) (through : ℕ) (fs : List (Funding D)) (d e : Draft D)
      → ((f : Funding D) → (equal f.rate f.rate && equal f.mark f.mark) ≡ true)
      → settle_all D b through fs d ≡ drafted e
      → distinct_times D (b.settlements ++ e.settlements) ≡ true
      → All (IsDue through) fs × All (IsSettled (b.settlements ++ e.settlements)) fs
  settles b through [] d e q h u = (tt, tt)
  settles b through (f ∷ fs) d e q h u =
      let s = step b through f fs d e h in
      let (due, more) = settles b through fs s.next e q s.rest u in
      let (new, g) = grown b through fs s.next e s.rest in
      let this : IsSettled (b.settlements ++ e.settlements) f = elim s.way [
        | inl (w, k) ↦ IsSettled-append b.settlements e.settlements f k
        | inr w ↦
            recorded-IsSettled b.settlements d.settlements e.settlements new f (q f)
              (g ∙ ap (λ l. l ++ new) w) u
      ] in
      ((s.due, due), (this, more))

module _ (D : DecimalOps) (L : DecimalLaws D) where
  outcome :
      (o : Outcome D)
      → ((e : Draft D) × (o ≡ drafted e))
        ⊎ ((t : Bool) (n : ℕ) (b : Books D) → (closed D t n b o).1 ≡ false)
  outcome (drafted e) = inl (e, refl)
  outcome invalid = inr (λ t n b. refl)
  outcome (conflicting f) = inr (λ t n b. refl)

  abbrev Unmoved : Books D → Books D × Bool → Type 0
  Unmoved first second =
      (second.1 ≡ true)
      × (second.0.settlements ≡ first.settlements)
      × (second.0.charges ≡ first.charges)
      × (second.0.trades ≡ first.trades)
      × (second.0.state.accounts ≡ first.state.accounts)

  -- A run that drafts nothing.
  unmoved :
      (taken : Bool) (fs : List (Funding D)) (through : ℕ) (b : Books D)
      → taken ≡ true
      → distinct_times D b.settlements ≡ true
      → settle_all D b through fs (start D b) ≡ drafted (start D b)
      → Unmoved b (settle D taken fs through b)
  unfolding settle
  unmoved taken fs through b t u h =
      simp (h, t, append-nil b.settlements, append-nil b.charges, u) (refl, refl, refl, refl, refl)

  both : (a b : Bool) → (a && b) ≡ true → (a ≡ true) × (b ≡ true)
  both a b h = ground arith

  equal_refl : (f : Funding D) → (D.equal f.rate f.rate && D.equal f.mark f.mark) ≡ true
  equal_refl f =
      let a = (L.equal_iff f.rate f.rate).1 refl in
      let b = (L.equal_iff f.mark f.mark).1 refl in ground arith

  -- The books that a draft leaves.
  abbrev after : ℕ → Books D → Draft D → Books D
  after through b e = record b {
    state = settled_state D through e.state;
    settlements = b.settlements ++ e.settlements;
    charges = b.charges ++ e.charges;
    trades = put_trades D e.trades b.trades;
  }

  drafted_again :
      (taken : Bool) (fs : List (Funding D)) (through : ℕ) (b : Books D) (e : Draft D)
      → settle_all D b through fs (start D b) ≡ drafted e
      → (committed D taken (settled_state D through e.state) e b).1 ≡ true
      → let first = (committed D taken (settled_state D through e.state) e b).0 in
        Unmoved first (settle D taken fs through first)
  drafted_again taken fs through b e g h =
      elim (Bool-cases (taken && distinct_times D (b.settlements ++ e.settlements))) [
        | inr m ↦ let n = rw m at h in cc
        | inl m ↦
            let (t, u) = both taken (distinct_times D (b.settlements ++ e.settlements)) m in
            let (due, settled) = settles D b through fs (start D b) e equal_refl g u in
            let eq : (committed D taken (settled_state D through e.state) e b).0
                ≡ after through b e =
              rw m refl in
            subst (λ r. Unmoved r (settle D taken fs through r)) (sym eq)
              (unmoved taken fs through (after through b e) t u (
                settle_all-settled D (after through b e) through fs (start D (after through b e))
                  due settled))
      ]

  -- Where a settlement succeeds, another one with the same records and end succeeds too, and leaves
  -- the settlements, the charges, the trades and the accounts as the first left them.
  pub settle_again :
      (taken : Bool) (fs : List (Funding D)) (through : ℕ) (b : Books D)
      → (settle D taken fs through b).1 ≡ true
      → let first = (settle D taken fs through b).0 in
        let second = settle D taken fs through first in
        (second.1 ≡ true)
        × (second.0.settlements ≡ first.settlements)
        × (second.0.charges ≡ first.charges)
        × (second.0.trades ≡ first.trades)
        × (second.0.state.accounts ≡ first.state.accounts)
  unfolding settle
  settle_again taken fs through b h = elim (outcome (settle_all D b through fs (start D b))) [
    | inr g ↦ let n = g taken through b in cc
    | inl (e, g) ↦
        let eq : settle D taken fs through b
            ≡ committed D taken (settled_state D through e.state) e b =
          ap (closed D taken through b) g in
        subst (λ r. Unmoved r.0 (settle D taken fs through r.0)) (sym eq)
          (drafted_again taken fs through b e g (sym (ap (λ (r : Books D × Bool). r.1) eq) ∙ h))
  ]
