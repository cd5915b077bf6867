-- ===== src/Decimal/Sums.antt =====
-- Sums and differences of decimals.
use traderton.Prelude.{◌≡◌, refl, sym, ap, ◌∙◌, arith, true}
use traderton.Decimal.{DecimalLib, Price, decimal, plus, minus, mul, neg, abs, lt}
use traderton.Decimal.Laws.{Exact}

module _ ⦃lib : DecimalLib⦄ ⦃ex : Exact⦄ where
  pub zero-plus : (a : Price) → plus (decimal 0) a ≡ a
  zero-plus a = ex.plus_comm (decimal 0) a ∙ ex.plus-zero a

  -- The sign of a difference is the comparison.
  pub plus-minus : (a b : Price) → plus (minus a b) b ≡ a
  plus-minus a b =
      rw (ex.minus_lem a b, ex.plus_assoc a (neg b) b, ex.plus_comm (neg b) b, ex.plus-neg b)
        (ex.plus-zero a)

  pub minus-plus : (a b : Price) → minus (plus a b) b ≡ a
  minus-plus a b =
      rw (ex.minus_lem (plus a b) b, ex.plus_assoc a b (neg b), ex.plus-neg b) (ex.plus-zero a)

  pub minus_self : (a : Price) → minus a a ≡ decimal 0
  minus_self a = rw (ex.minus_lem a a) (ex.plus-neg a)

  pub compared_to-minus :
      (a b : Price) → lib.compared_to (minus a b) (decimal 0) ≡ lib.compared_to a b
  compared_to-minus a b =
      sym (ex.compared_to-plus (minus a b) (decimal 0) b) ∙ rw (plus-minus a b, zero-plus b)

  pub plus_cancel : (a b c : Price) → plus a c ≡ plus b c → a ≡ b
  plus_cancel a b c h = sym (minus-plus a c) ∙ ap (λ x. minus x c) h ∙ minus-plus b c

  pub plus_left_comm : (a b c : Price) → plus a (plus b c) ≡ plus b (plus a c)
  plus_left_comm a b c =
      sym (ex.plus_assoc a b c) ∙ ap (λ x. plus x c) (ex.plus_comm a b) ∙ ex.plus_assoc b a c

  -- x is -a as soon as a + x is 0.
  pub neg_unique : (a x : Price) → plus a x ≡ decimal 0 → x ≡ neg a
  neg_unique a x h =
      plus_cancel x (neg a) a (ex.plus_comm x a ∙ h ∙ sym (ex.plus_comm (neg a) a ∙ ex.plus-neg a))

  pub neg-neg : (a : Price) → neg (neg a) ≡ a
  neg-neg a = sym (neg_unique (neg a) a (ex.plus_comm (neg a) a ∙ ex.plus-neg a))

  pub neg-zero : neg (decimal 0) ≡ decimal 0
  neg-zero = sym (neg_unique (decimal 0) (decimal 0) (ex.plus-zero (decimal 0)))

  pub neg-plus : (a b : Price) → neg (plus a b) ≡ plus (neg a) (neg b)
  neg-plus a b = sym (neg_unique (plus a b) (plus (neg a) (neg b)) cancels)
    where
      cancels : plus (plus a b) (plus (neg a) (neg b)) ≡ decimal 0
      cancels =
          rw
            (
              ex.plus_assoc a b (plus (neg a) (neg b)),
              plus_left_comm b (neg a) (neg b),
              ex.plus-neg b,
              ex.plus-zero (neg a),
            )
            (ex.plus-neg a)

  pub neg-minus : (a b : Price) → neg (minus a b) ≡ minus b a
  neg-minus a b =
      rw (ex.minus_lem a b, neg-plus a (neg b), neg-neg b, ex.minus_lem b a)
        (ex.plus_comm (neg a) b)

  pub mul-zero : (a : Price) → mul a (decimal 0) ≡ decimal 0
  mul-zero a = plus_cancel _ _ (mul a (decimal 0)) (
      sym (ex.mul-plus a (decimal 0) (decimal 0))
      ∙ ap (mul a) (ex.plus-zero (decimal 0))
      ∙ sym (zero-plus (mul a (decimal 0))))

  pub mul-neg : (a b : Price) → mul a (neg b) ≡ neg (mul a b)
  mul-neg a b =
      neg_unique (mul a b) (mul a (neg b))
        (sym (ex.mul-plus a b (neg b)) ∙ ap (mul a) (ex.plus-neg b) ∙ mul-zero a)

  pub mul-minus : (a b c : Price) → mul a (minus b c) ≡ minus (mul a b) (mul a c)
  mul-minus a b c =
      rw (ex.minus_lem b c, ex.mul-plus a b (neg c), mul-neg a c)
        (sym (ex.minus_lem (mul a b) (mul a c)))

  pub abs-minus_of_lt : (a b : Price) → lt a b ≡ true → abs (minus a b) ≡ minus b a
  abs-minus_of_lt a b h =
      ex.abs_of_neg (minus a b) (ground (arith, compared_to-minus a b)) ∙ neg-minus a b

  pub minus-plus_cancel : (a b c : Price) → minus (plus a b) (plus c b) ≡ minus a c
  minus-plus_cancel a b c = plus_cancel _ _ (plus c b) (
      plus-minus (plus a b) (plus c b)
      ∙ sym (sym (ex.plus_assoc (minus a c) c b) ∙ ap (λ x. plus x b) (plus-minus a c)))

  pub minus-mul : (a b c : Price) → mul (minus a b) c ≡ minus (mul a c) (mul b c)
  minus-mul a b c =
      rw (ex.mul_comm (minus a b) c, mul-minus c a b, ex.mul_comm c a, ex.mul_comm c b) refl
