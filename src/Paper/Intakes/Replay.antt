-- ===== src/Paper/Intakes/Replay.antt =====
-- Publications are taken in once.
use tidal_crypto_intelligenc.Base.{ℕ, ◌≤◌, ◌≡◌, refl, Bool, List, [], ◌∷◌, All, arith, le→ltb}
use tidal_crypto_intelligenc.Paper.Decimal.{DecimalOps}
use tidal_crypto_intelligenc.Paper.Types.{State, empty_batch}
use tidal_crypto_intelligenc.Paper.Store.{Store}
use tidal_crypto_intelligenc.Paper.Intakes.{Publication, take_one, take_in}

module _ (D : DecimalOps) where
  abbrev pub Behind : ℕ → List Publication → Type 0
  Behind c = All (λ n. n.seq ≤ c)

  take_one_old :
      (p : Store D) (now : ℕ) (protected : Bool) (n : Publication) (s : State D)
      → n.seq ≤ s.cursor
      → take_one D p now protected n s ≡ (s, empty_batch D)
  unfolding take_one
  take_one_old p now protected n s b = rw (le→ltb s.cursor n.seq b)

  take_one_cursor :
      (p : Store D) (now : ℕ) (protected : Bool) (n : Publication) (s : State D)
      → let after = (take_one D p now protected n s).0 in
        (s.cursor ≤ after.cursor) × (n.seq ≤ after.cursor)
  unfolding take_one
  take_one_cursor p now protected n s = ground arith

  take_in_old :
      (p : Store D) (now : ℕ) (protected : Bool) (news : List Publication) (s : State D)
      → Behind s.cursor news
      → take_in D p now protected news s ≡ (s, empty_batch D)
  unfolding take_in
  take_in_old p now protected [] s b = refl
  take_in_old p now protected (n ∷ ns) s b =
      rw (take_one_old p now protected n s b.0) (simp (take_in_old p now protected ns s b.1))

  -- The cursor does not go back, and passes all that was read.
  pub take_in_cursor :
      (p : Store D) (now : ℕ) (protected : Bool) (news : List Publication) (s : State D)
      → let after = (take_in D p now protected news s).0 in
        (s.cursor ≤ after.cursor) × Behind after.cursor news
  unfolding take_in
  take_in_cursor p now protected [] s = (omega arith, tt)
  take_in_cursor p now protected (n ∷ ns) s =
      let (up, mine) = take_one_cursor p now protected n s in
      let (more, rest) = take_in_cursor p now protected ns (take_one D p now protected n s).0 in
      (omega arith, (omega arith, rest))

  -- Reading the same publications again changes nothing and writes nothing, in any state of the
  -- store and at any time.
  pub take_in_again :
      (p p' : Store D) (now now' : ℕ) (b b' : Bool) (news : List Publication) (s : State D)
      → let after = (take_in D p now b news s).0 in
        take_in D p' now' b' news after ≡ (after, empty_batch D)
  take_in_again p p' now now' b b' news s =
      take_in_old p' now' b' news _ (take_in_cursor p now b news s).1
