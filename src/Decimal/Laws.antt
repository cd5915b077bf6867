-- ===== src/Decimal/Laws.antt =====
-- What the development assumes of decimal.js: its values are totally ordered, and sums, differences
-- and products are exact at the precision in use. A quotient may be rounded, but monotonically, and
-- is exact where it undoes a product. Nothing is assumed of a division by zero.
use traderton.Prelude.{ℕ, ◌<◌, ◌≡◌, ◌↔◌, Ordering, true}
use traderton.Decimal.{DecimalLib, decimal, plus, minus, mul, div, neg, abs, lt, lte}

abbrev pub flip : Ordering → Ordering
flip Ordering.lt = Ordering.gt
flip Ordering.eq = Ordering.eq
flip Ordering.gt = Ordering.lt

pub record Exact ⦃lib : DecimalLib⦄ : Type 0 where
  pub compared_to-eq_iff : (a b : lib.Decimal) → (lib.compared_to a b ≡ Ordering.eq) ↔ (a ≡ b)
  pub compared_to-flip : (a b : lib.Decimal) → lib.compared_to b a ≡ flip (lib.compared_to a b)
  pub lt_trans : (a b c : lib.Decimal) → lt a b ≡ true → lt b c ≡ true → lt a c ≡ true
  pub compared_to-plus :
      (a b c : lib.Decimal) → lib.compared_to (plus a c) (plus b c) ≡ lib.compared_to a b
  pub plus_comm : (a b : lib.Decimal) → plus a b ≡ plus b a
  pub plus_assoc : (a b c : lib.Decimal) → plus (plus a b) c ≡ plus a (plus b c)
  pub plus-zero : (a : lib.Decimal) → plus a (decimal 0) ≡ a
  pub plus-neg : (a : lib.Decimal) → plus a (neg a) ≡ decimal 0
  pub minus_lem : (a b : lib.Decimal) → minus a b ≡ plus a (neg b)
  pub copy_lem : (a : lib.Decimal) → lib.copy a ≡ a
  pub mul_comm : (a b : lib.Decimal) → mul a b ≡ mul b a
  pub mul-plus : (a b c : lib.Decimal) → mul a (plus b c) ≡ plus (mul a b) (mul a c)
  pub mul-one : (a : lib.Decimal) → mul a (decimal 1) ≡ a
  pub decimal_mono : (n m : ℕ) → n < m → lt (decimal n) (decimal m) ≡ true
  pub mul-pos :
      (a b : lib.Decimal)
      → lt (decimal 0) a ≡ true
      → lt (decimal 0) b ≡ true
      → lt (decimal 0) (mul a b) ≡ true
  pub abs_of_neg : (a : lib.Decimal) → lt a (decimal 0) ≡ true → abs a ≡ neg a
  pub abs_of_nonneg : (a : lib.Decimal) → lte (decimal 0) a ≡ true → abs a ≡ a
  pub div-mul_cancel : (a b : lib.Decimal) → lt (decimal 0) b ≡ true → div (mul a b) b ≡ a
  pub div_mono :
      (a b c : lib.Decimal)
      → lt (decimal 0) c ≡ true
      → lte a b ≡ true
      → lte (div a c) (div b c) ≡ true
