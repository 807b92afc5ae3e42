-- ===== src/Paper/Decimal.antt =====
-- github.com/shopspring/decimal, which is not under the repository, as a parameter: the operations
-- that the paper engine calls, and the documented facts that the proofs rely on. A `Decimal` stands
-- for a numerical value, so that `1.0` and `1.00`, which `Equal` does not tell apart, are one.
use tidal_crypto_intelligenc.Base.{ℕ, ◌≡◌, ◌↔◌, ◌⊎◌, Bool, true, false, not, String}

pub record DecimalOps : Type 1 where
  pub Decimal : Type 0
  pub of_int : ℕ → Decimal  -- `NewFromInt`, at the integers that are not negative
  pub require : String → Decimal  -- `RequireFromString`
  pub add : Decimal → Decimal → Decimal
  pub sub : Decimal → Decimal → Decimal
  pub mul : Decimal → Decimal → Decimal
  pub div : Decimal → Decimal → Decimal
  pub neg : Decimal → Decimal
  pub floor : Decimal → Decimal
  pub least : Decimal → Decimal → Decimal  -- `Min` of two
  pub less : Decimal → Decimal → Bool  -- `LessThan`
  pub equal : Decimal → Decimal → Bool  -- `Equal`

module _ (D : DecimalOps) where
  open D use {Decimal, of_int, less, equal}

  abbrev pub nil : Decimal
  nil = of_int 0

  abbrev pub is_positive : Decimal → Bool
  is_positive a = less nil a

  abbrev pub is_nil : Decimal → Bool
  is_nil a = equal a nil

  -- `a.LessThanOrEqual(b)`, and `b.GreaterThanOrEqual(a)`.
  abbrev pub at_most : Decimal → Decimal → Bool
  at_most a b = not (less b a)

-- Addition is exact, `Sub` and `Neg` undo it, and the order is a total one that agrees with it.
pub record DecimalLaws (D : DecimalOps) : Type 0 where
  pub add_comm : (a b : D.Decimal) → D.add a b ≡ D.add b a
  pub add_assoc : (a b c : D.Decimal) → D.add (D.add a b) c ≡ D.add a (D.add b c)
  pub add_nil : (a : D.Decimal) → D.add a (D.of_int 0) ≡ a
  pub sub_add : (a b : D.Decimal) → D.add (D.sub a b) b ≡ a
  pub add_neg : (a : D.Decimal) → D.add a (D.neg a) ≡ D.of_int 0
  pub equal_iff : (a b : D.Decimal) → (D.equal a b ≡ true) ↔ (a ≡ b)
  pub less_irrefl : (a : D.Decimal) → D.less a a ≡ false
  pub less_trans : (a b c : D.Decimal) → D.less a b ≡ true → D.less b c ≡ true → D.less a c ≡ true
  pub less_total : (a b : D.Decimal) → (D.less a b ≡ true) ⊎ ((a ≡ b) ⊎ (D.less b a ≡ true))
  pub less_add : (a b c : D.Decimal) → D.less a b ≡ true → D.less (D.add a c) (D.add b c) ≡ true
  pub least_bounds :
      (a b : D.Decimal) → (D.less a (D.least a b) ≡ false) × (D.less b (D.least a b) ≡ false)
