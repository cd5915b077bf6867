-- ===== src/Decimal/Integers.antt =====
-- A model of decimal.js that meets the laws: whole numbers, with a quotient that is rounded down.
use native.Mathlib.Nat.{mul-div_cancel, le-div_iff_mul-le, div-mul-le_self}
use traderton.Prelude.{
  ℕ, zero, suc, ◌+◌, ◌*◌, ◌/◌, ◌≤◌, ◌≡◌, refl, ap, ◌↔◌, Ordering, compare, String, arith, true,
}
use traderton.Prelude.Int.{
  ℤ, pos, negsuc, pos_part, neg_part, ◌+ℤ◌, ◌-ℤ◌, ◌*ℤ◌, +ℤ_comm, +ℤ_assoc, +ℤ_parts, -ℤ_parts,
  eq_of_parts,
}
use traderton.Decimal.{DecimalLib, lt, lte}
use traderton.Decimal.Laws.{Exact, flip}

abbrev pub compare_ℤ : ℤ → ℤ → Ordering
compare_ℤ a b = compare (pos_part a + neg_part b) (pos_part b + neg_part a)

-- A quotient by a positive number rounds down; any other is 0.
abbrev pub div_ℤ : ℤ → ℤ → ℤ
div_ℤ (pos n) (pos m) = pos (n / m)
div_ℤ (negsuc n) (pos m) = negsuc (n / m)
div_ℤ _ (negsuc m) = pos 0

abbrev pub abs_ℤ : ℤ → ℤ
abs_ℤ (pos n) = pos n
abs_ℤ (negsuc n) = pos (suc n)

abbrev pub to_string_ℤ : ℤ → String
to_string_ℤ (pos n) = "+"
to_string_ℤ (negsuc n) = "-"

instance abbrev pub whole_numbers : DecimalLib
whole_numbers = record {
  Decimal = ℤ;
  of_number = pos;
  plus = ◌+ℤ◌;
  minus = ◌-ℤ◌;
  mul = ◌*ℤ◌;
  div = div_ℤ;
  neg = λ a. pos 0 -ℤ a;
  abs = abs_ℤ;
  compared_to = compare_ℤ;
  to_string = to_string_ℤ;
  copy = λ a. a;
}

compare_ℤ-eq_iff : (a b : ℤ) → (compare_ℤ a b ≡ Ordering.eq) ↔ (a ≡ b)
compare_ℤ-eq_iff a b = ground arith

compare_ℤ-flip : (a b : ℤ) → compare_ℤ b a ≡ flip (compare_ℤ a b)
compare_ℤ-flip a b = ground arith

compare_ℤ_trans : (a b c : ℤ) → lt a b ≡ true → lt b c ≡ true → lt a c ≡ true
compare_ℤ_trans a b c p q = ground arith

compare_ℤ-plus : (a b c : ℤ) → compare_ℤ (a +ℤ c) (b +ℤ c) ≡ compare_ℤ a b
compare_ℤ-plus a b c = ground (arith, +ℤ_parts a c, +ℤ_parts b c)

*ℤ_parts :
    (a b : ℤ)
    → pos_part (a *ℤ b) + (pos_part a * neg_part b + neg_part a * pos_part b)
      ≡ neg_part (a *ℤ b) + (pos_part a * pos_part b + neg_part a * neg_part b)
unfolding ◌*ℤ◌
*ℤ_parts a b = grind arith

*ℤ_comm : (a b : ℤ) → a *ℤ b ≡ b *ℤ a
*ℤ_comm a b = eq_of_parts _ _ (omega (arith, *ℤ_parts a b, *ℤ_parts b a))

*ℤ-+ℤ : (a b c : ℤ) → a *ℤ (b +ℤ c) ≡ a *ℤ b +ℤ a *ℤ c
*ℤ-+ℤ a b c = eq_of_parts _ _ (
    omega (
      arith,
      *ℤ_parts a (b +ℤ c),
      *ℤ_parts a b,
      *ℤ_parts a c,
      +ℤ_parts (a *ℤ b) (a *ℤ c),
      ap (λ (t : ℕ). pos_part a * t) (+ℤ_parts b c),
      ap (λ (t : ℕ). neg_part a * t) (+ℤ_parts b c),
    ))

pos-*ℤ-pos : (n m : ℕ) → pos n *ℤ pos m ≡ pos (n * m)
unfolding ◌*ℤ◌
pos-*ℤ-pos n m = grind arith

negsuc-*ℤ-pos : (n m : ℕ) → negsuc n *ℤ pos (suc m) ≡ negsuc (n * suc m + m)
unfolding ◌*ℤ◌
negsuc-*ℤ-pos n m = grind arith

*ℤ-pos : (a b : ℤ) → lt (pos 0) a ≡ true → lt (pos 0) b ≡ true → lt (pos 0) (a *ℤ b) ≡ true
*ℤ-pos (pos zero) b h k = ground arith
*ℤ-pos (pos (suc n)) (pos zero) h k = ground arith
*ℤ-pos (pos (suc n)) (pos (suc m)) h k = rw (pos-*ℤ-pos (suc n) (suc m)) (grind arith)
*ℤ-pos (pos n) (negsuc m) h k = ground arith
*ℤ-pos (negsuc n) b h k = ground arith

div_below : (n m : ℕ) → (n * suc m + m) / suc m ≡ n
div_below n m = grind arith

div_ℤ-*ℤ_cancel : (a b : ℤ) → lt (pos 0) b ≡ true → div_ℤ (a *ℤ b) b ≡ a
div_ℤ-*ℤ_cancel a (negsuc m) h = ground arith
div_ℤ-*ℤ_cancel a (pos zero) h = ground arith
div_ℤ-*ℤ_cancel (pos n) (pos (suc m)) h =
    rw (pos-*ℤ-pos n (suc m)) (ap pos (mul-div_cancel n (omega arith)))
div_ℤ-*ℤ_cancel (negsuc n) (pos (suc m)) h = rw (negsuc-*ℤ-pos n m) (ap negsuc (div_below n m))

div_mono_le : (a b c : ℕ) → a ≤ b → a / c ≤ b / c
div_mono_le a b zero h = omega arith
div_mono_le a b (suc c) h =
    (le-div_iff_mul-le (omega arith)).1 (omega (arith, div-mul-le_self a (suc c)))

div_ℤ_mono : (a b c : ℤ) → lt (pos 0) c ≡ true → lte a b ≡ true → lte (div_ℤ a c) (div_ℤ b c) ≡ true
div_ℤ_mono a b (negsuc c) h k = ground arith
div_ℤ_mono (pos a) (pos b) (pos c) h k = ground (arith, div_mono_le a b c)
div_ℤ_mono (pos a) (negsuc b) (pos c) h k = ground arith
div_ℤ_mono (negsuc a) (pos b) (pos c) h k = ground arith
div_ℤ_mono (negsuc a) (negsuc b) (pos c) h k = ground (arith, div_mono_le b a c)

neg_ℤ_cancel : (a : ℤ) → a +ℤ (pos 0 -ℤ a) ≡ pos 0
neg_ℤ_cancel a = eq_of_parts _ _ (omega (arith, +ℤ_parts a (pos 0 -ℤ a), -ℤ_parts (pos 0) a))

minus_ℤ_lem : (a b : ℤ) → a -ℤ b ≡ a +ℤ (pos 0 -ℤ b)
minus_ℤ_lem a b =
    eq_of_parts _ _ (omega (arith, -ℤ_parts a b, +ℤ_parts a (pos 0 -ℤ b), -ℤ_parts (pos 0) b))

abs_ℤ_of_neg : (a : ℤ) → lt a (pos 0) ≡ true → abs_ℤ a ≡ pos 0 -ℤ a
unfolding ◌-ℤ◌
abs_ℤ_of_neg a h = ground arith

abs_ℤ_of_nonneg : (a : ℤ) → lte (pos 0) a ≡ true → abs_ℤ a ≡ a
abs_ℤ_of_nonneg a h = ground arith

+ℤ_zero : (a : ℤ) → a +ℤ pos 0 ≡ a
unfolding ◌+ℤ◌
+ℤ_zero a = ground arith

*ℤ-one : (a : ℤ) → a *ℤ pos 1 ≡ a
*ℤ-one a = eq_of_parts _ _ (omega (arith, *ℤ_parts a (pos 1)))

instance pub whole_numbers-Exact : Exact
whole_numbers-Exact = record {
  compared_to-eq_iff = compare_ℤ-eq_iff;
  compared_to-flip = compare_ℤ-flip;
  lt_trans = compare_ℤ_trans;
  compared_to-plus = compare_ℤ-plus;
  plus_comm = +ℤ_comm;
  plus_assoc = +ℤ_assoc;
  plus-zero = λ a. +ℤ_zero a;
  plus-neg = neg_ℤ_cancel;
  minus_lem = minus_ℤ_lem;
  copy_lem = λ a. refl;
  mul_comm = *ℤ_comm;
  mul-plus = *ℤ-+ℤ;
  mul-one = *ℤ-one;
  decimal_mono = λ n m h. ground arith;
  mul-pos = *ℤ-pos;
  abs_of_neg = abs_ℤ_of_neg;
  abs_of_nonneg = abs_ℤ_of_nonneg;
  div-mul_cancel = div_ℤ-*ℤ_cancel;
  div_mono = div_ℤ_mono;
}
