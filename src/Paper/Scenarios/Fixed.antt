-- ===== src/Paper/Scenarios/Fixed.antt =====
-- A concrete instance of the decimals: multiples of 1/10000, over the integers. Products and
-- quotients are rounded towards zero.
use tidal_crypto_intelligenc.Base.{
  ℕ, suc, ◌+◌, ◌*◌, ◌/◌, ◌≡◌, ◌⊎◌, inl, inr, Bool, true, false, arith, ◌==◌, if◌then◌else◌, String,
  str_eq, Bool-cases,
}
use tidal_crypto_intelligenc.Base.Integers.{
  ℤ, pos, negsuc, pos_part, neg_part, sub_ℕ, ◌+ℤ◌, ◌-ℤ◌, ltb_ℤ, +ℤ_comm, +ℤ_assoc, +ℤ_nil,
}
use tidal_crypto_intelligenc.Paper.Decimal.{DecimalOps, DecimalLaws}

abbrev eq_ℤ : ℤ → ℤ → Bool
eq_ℤ a b = pos_part a + neg_part b == pos_part b + neg_part a

abbrev least_ℤ : ℤ → ℤ → ℤ
least_ℤ a b = if ltb_ℤ a b then a else b

abbrev times : ℤ → ℤ → ℤ
times a b =
    sub_ℕ ((pos_part a * pos_part b + neg_part a * neg_part b) / 10000)
      ((pos_part a * neg_part b + neg_part a * pos_part b) / 10000)

abbrev over_ℕ : ℕ → ℕ → ℕ
over_ℕ a b = if b == 0 then 0 else a * 10000 / b

abbrev over : ℤ → ℤ → ℤ
over a (pos n) = sub_ℕ (over_ℕ (pos_part a) n) (over_ℕ (neg_part a) n)
over a (negsuc n) = sub_ℕ (over_ℕ (neg_part a) (suc n)) (over_ℕ (pos_part a) (suc n))

abbrev floor_ℤ : ℤ → ℤ
floor_ℤ (pos n) = pos (n / 10000 * 10000)
floor_ℤ (negsuc n) = sub_ℕ 0 ((n / 10000 + 1) * 10000)

-- The constants of the source.
abbrev literal : String → ℤ
literal s =
    if str_eq s "0.0005"
    then pos 5
    else if str_eq s "0.0002"
    then pos 2
    else if str_eq s "0.5"
    then pos 5000
    else if str_eq s "0.8"
    then pos 8000
    else pos 10000

abbrev pub fixed : DecimalOps
fixed = record {
  Decimal = ℤ;
  of_int = λ n. pos (n * 10000);
  require = literal;
  add = ◌+ℤ◌;
  sub = ◌-ℤ◌;
  mul = times;
  div = over;
  neg = λ a. pos 0 -ℤ a;
  floor = floor_ℤ;
  least = least_ℤ;
  less = ltb_ℤ;
  equal = eq_ℤ;
}

-ℤ_add : (a b : ℤ) → a -ℤ b +ℤ b ≡ a
-ℤ_add a b = ground arith

+ℤ_neg : (a : ℤ) → a +ℤ (pos 0 -ℤ a) ≡ pos 0
+ℤ_neg a = ground arith

eq_ℤ_refl : (a b : ℤ) → a ≡ b → eq_ℤ a b ≡ true
eq_ℤ_refl a b h = rw h (ground arith)

eq_ℤ-true : (a b : ℤ) → eq_ℤ a b ≡ true → a ≡ b
eq_ℤ-true a b h = ground arith

ltb_ℤ_total : (a b : ℤ) → (ltb_ℤ a b ≡ true) ⊎ ((a ≡ b) ⊎ (ltb_ℤ b a ≡ true))
ltb_ℤ_total a b = elim (Bool-cases (ltb_ℤ a b)) [
  | inl e ↦ inl e
  | inr e ↦ elim (Bool-cases (ltb_ℤ b a)) [
    | inl f ↦ inr (inr f)
    | inr f ↦ inr (inl (eq_ℤ-true a b (ground arith)))
  ]
]

ltb_ℤ_add : (a b c : ℤ) → ltb_ℤ a b ≡ true → ltb_ℤ (a +ℤ c) (b +ℤ c) ≡ true
ltb_ℤ_add a b c h = ground arith

least_ℤ_bounds : (a b : ℤ) → (ltb_ℤ a (least_ℤ a b) ≡ false) × (ltb_ℤ b (least_ℤ a b) ≡ false)
least_ℤ_bounds a b = ground arith

pub fixed_laws : DecimalLaws fixed
fixed_laws = record {
  add_comm = +ℤ_comm;
  add_assoc = +ℤ_assoc;
  add_nil = +ℤ_nil;
  sub_add = -ℤ_add;
  add_neg = +ℤ_neg;
  equal_iff = λ a b. (eq_ℤ-true a b, eq_ℤ_refl a b);
  less_irrefl = λ a. ground arith;
  less_trans = λ a b c h k. ground arith;
  less_total = ltb_ℤ_total;
  less_add = ltb_ℤ_add;
  least_bounds = least_ℤ_bounds;
}
