-- ===== src/Signals/Baseline/Sorted.antt =====
-- The sorted samples of the baseline: the order of insertion does not matter, and taking out what
-- was put in changes nothing.
use mathlib.Core.Path.{subst}
use tidal_crypto_intelligenc.Base.{
  suc, ◌≡◌, refl, sym, ap, ◌∙◌, Bool, true, false, List, [], ◌∷◌, ◌++◌, All, length, if◌then◌else◌,
  Bool-cases, inl, inr,
}
use tidal_crypto_intelligenc.Study.Prices.{Floats, FloatLaws}
use tidal_crypto_intelligenc.Signals.{FlowBar}
use tidal_crypto_intelligenc.Signals.Baseline.{
  insert_sorted, remove_sorted, sorted_change, sorted, sample,
}

module _ (F : Floats) where
  open F use {Float, at_least}

  abbrev pub inserts : List Float → List Float → List Float
  inserts [] l = l
  inserts (x ∷ xs) l = inserts xs (insert_sorted F x l)

  pub inserts-append : (xs ys l : List Float) → inserts (xs ++ ys) l ≡ inserts ys (inserts xs l)
  inserts-append [] ys l = refl
  inserts-append (x ∷ xs) ys l = inserts-append xs ys (insert_sorted F x l)

  -- What `feature` does to one list.
  abbrev pub change : (FlowBar → Float) → FlowBar × Bool → Bool → List Float → List Float
  change g (b, ok) adding l = if ok then sorted_change F l (g b) adding else l

  pub change_add :
      (g : FlowBar → Float) (s : FlowBar × Bool) (l : List Float)
      → change g s true l ≡ inserts (sample F g s) l
  unfolding sorted_change
  change_add g (b, true) l = refl
  change_add g (b, false) l = refl

  length_insert : (v : Float) (l : List Float) → length (insert_sorted F v l) ≡ suc (length l)
  unfolding insert_sorted
  length_insert v [] = refl
  length_insert v (x ∷ xs) = elim (Bool-cases (at_least x v)) [
    | inl e ↦ rw e
    | inr e ↦ rw (e, length_insert v xs)
  ]

  pub length-sorted : (xs : List Float) → length (sorted F xs) ≡ length xs
  unfolding sorted
  length-sorted [] = refl
  length-sorted (x ∷ xs) = length_insert x (sorted F xs) ∙ ap suc (length-sorted xs)

module _ (F : Floats) (L : FloatLaws F) where
  open F use {Float, at_least}
  open L use {Number}

  pub insert-Number :
      (v : Float) (l : List Float) → Number v → All Number l → All Number (insert_sorted F v l)
  unfolding insert_sorted
  insert-Number v [] h k = (h, tt)
  insert-Number v (x ∷ xs) h k = elim (Bool-cases (at_least x v)) [
    | inl e ↦ rw e (h, k)
    | inr e ↦ rw e (k.0, insert-Number v xs h k.1)
  ]

  insert_two :
      (a b : Float) → Number a → Number b → insert_sorted F a (b ∷ []) ≡ insert_sorted F b (a ∷ [])
  unfolding insert_sorted
  insert_two a b h k = elim (Bool-cases (at_least b a)) [
    | inl e ↦ elim (Bool-cases (at_least a b)) [
      | inl f ↦ rw (e, f) (let same = L.at_least_antisym a b h k f e in cc)
      | inr f ↦ rw (e, f)
    ]
    | inr e ↦ rw (e, L.total b a k h e)
  ]

  insert_comm :
      (a b : Float) (l : List Float)
      → Number a
      → Number b
      → All Number l
      → insert_sorted F a (insert_sorted F b l) ≡ insert_sorted F b (insert_sorted F a l)
  unfolding insert_sorted
  insert_comm a b [] h k n = insert_two a b h k
  insert_comm a b (x ∷ xs) h k n = elim (Bool-cases (at_least x a)) [
    | inl e ↦ elim (Bool-cases (at_least x b)) [
      | inl f ↦ elim (Bool-cases (at_least b a)) [
        | inl g ↦ elim (Bool-cases (at_least a b)) [
          | inl i ↦
              subst
                (λ y.
                  insert_sorted F a (insert_sorted F y (x ∷ xs))
                  ≡ insert_sorted F y (insert_sorted F a (x ∷ xs)))
                (L.at_least_antisym a b h k i g) refl
          | inr i ↦ simp (e, f, g, i)
        ]
        | inr g ↦ let i = L.total b a k h g in simp (e, f, g, i)
      ]
      | inr f ↦ elim (Bool-cases (at_least a b)) [
        | inl g ↦ let i = L.at_least_trans x a b n.0 h k e g in cc
        | inr g ↦ simp (e, f, g)
      ]
    ]
    | inr e ↦ elim (Bool-cases (at_least x b)) [
      | inl f ↦ elim (Bool-cases (at_least b a)) [
        | inl g ↦ let i = L.at_least_trans x b a n.0 k h f g in cc
        | inr g ↦ simp (e, f, g)
      ]
      | inr f ↦ simp (e, f, insert_comm a b xs h k n.1)
    ]
  ]

  pub remove_insert :
      (v : Float) (l : List Float) → Number v → remove_sorted F v (insert_sorted F v l) ≡ l
  unfolding insert_sorted remove_sorted
  remove_insert v [] h = rw (L.at_least_refl v h)
  remove_insert v (x ∷ xs) h = elim (Bool-cases (at_least x v)) [
    | inl e ↦ rw (e, L.at_least_refl v h)
    | inr e ↦ rw (e, e, remove_insert v xs h)
  ]

  -- A value put in before the others or after them.
  pub inserts_insert :
      (v : Float) (xs l : List Float)
      → Number v
      → All Number xs
      → All Number l
      → inserts F xs (insert_sorted F v l) ≡ insert_sorted F v (inserts F xs l)
  inserts_insert v [] l h k n = refl
  inserts_insert v (x ∷ xs) l h k n =
      ap (inserts F xs) (insert_comm x v l k.0 h n)
      ∙ inserts_insert v xs (insert_sorted F x l) h k.1 (insert-Number x l k.0 n)

  pub inserts-sorted : (xs : List Float) → All Number xs → inserts F xs [] ≡ sorted F xs
  unfolding sorted
  inserts-sorted [] h = refl
  inserts-sorted (x ∷ xs) h =
      inserts_insert x xs [] h.0 h.1 tt ∙ ap (insert_sorted F x) (inserts-sorted xs h.1)

  change_remove :
      (g : FlowBar → Float) (s : FlowBar × Bool) (ys : List Float)
      → ((b : FlowBar) → Number (g b))
      → All Number ys
      → change F g s false (inserts F (sample F g s ++ ys) []) ≡ inserts F ys []
  unfolding sorted_change
  change_remove g (b, true) ys h k =
      ap (remove_sorted F (g b)) (inserts_insert (g b) ys [] (h b) k tt)
      ∙ remove_insert (g b) (inserts F ys []) (h b)
  change_remove g (b, false) ys h k = refl

  -- The first sample leaves and another one comes.
  pub change_slide :
      (g : FlowBar → Float) (s new : FlowBar × Bool) (ys : List Float)
      → ((b : FlowBar) → Number (g b))
      → All Number ys
      → change F g new true (change F g s false (inserts F (sample F g s ++ ys) []))
        ≡ inserts F (ys ++ sample F g new) []
  change_slide g s new ys h k =
      ap (change F g new true) (change_remove g s ys h k)
      ∙ change_add F g new (inserts F ys [])
      ∙ sym (inserts-append F ys (sample F g new) [])
