-- ===== src/Decimal/Signs.antt =====
-- Signs of sums and products of decimals.
use traderton.Prelude.{◌≡◌, true, arith, inl, inr}
use traderton.Decimal.{DecimalLib, Price, decimal, plus, minus, mul, div, neg, abs, lt, lte}
use traderton.Decimal.Laws.{Exact}
use traderton.Decimal.Order.{lte_refl, lte_of_lt, lte_total, lte_cases}
use traderton.Decimal.Sums.{zero-plus, compared_to-minus, abs-minus_of_lt, mul-minus}

module _ ⦃lib : DecimalLib⦄ ⦃ex : Exact⦄ where
  pub plus-pos :
      (a b : Price)
      → lt (decimal 0) a ≡ true
      → lt (decimal 0) b ≡ true
      → lt (decimal 0) (plus a b) ≡ true
  plus-pos a b h k =
      ex.lt_trans (decimal 0) b (plus a b) k
        (ground (arith, ex.compared_to-plus (decimal 0) a b, zero-plus b))

  pub minus-pos : (a b : Price) → lt b a ≡ true → lt (decimal 0) (minus a b) ≡ true
  minus-pos a b h = ground (
    arith,
    compared_to-minus a b,
    ex.compared_to-flip (minus a b) (decimal 0),
    ex.compared_to-flip b a,
  )

  pub abs-minus_pos : (a b : Price) → lt a b ≡ true → lt (decimal 0) (abs (minus a b)) ≡ true
  abs-minus_pos a b h = rw (abs-minus_of_lt a b h) (minus-pos b a h)

  pub abs_nonneg : (a : Price) → lte (decimal 0) (abs a) ≡ true
  abs_nonneg a = elim (lte_total (decimal 0) a) [
    | inl up ↦ rw (ex.abs_of_nonneg a up) up
    | inr down ↦
        rw (ex.abs_of_neg a down, ← zero-plus (neg a), ← ex.minus_lem (decimal 0) a)
          (lte_of_lt (decimal 0) (minus (decimal 0) a) (minus-pos (decimal 0) a down))
  ]

  -- A product with a positive number keeps the order.
  pub mul-lte :
      (c a b : Price) → lt (decimal 0) c ≡ true → lte a b ≡ true → lte (mul c a) (mul c b) ≡ true
  mul-lte c a b h k = elim (lte_cases a b k) [
    | inl below ↦ ground (
      arith,
      ex.mul-pos c (minus b a) h (minus-pos b a below),
      mul-minus c b a,
      compared_to-minus (mul c b) (mul c a),
      ex.compared_to-flip (mul c a) (mul c b),
      ex.compared_to-flip (minus (mul c b) (mul c a)) (decimal 0),
    )
    | inr same ↦ rw same (lte_refl (mul c b))
  ]

  pub plus-lte : (a b c : Price) → lte a b ≡ true → lte (plus a c) (plus b c) ≡ true
  plus-lte a b c h = ground (arith, ex.compared_to-plus a b c)

  plus-lte_right : (a b c : Price) → lte a b ≡ true → lte (plus c a) (plus c b) ≡ true
  plus-lte_right a b c h = ground (arith, plus-lte a b c h, ex.plus_comm c a, ex.plus_comm c b)

  mul-lte_left :
      (a b c : Price) → lt (decimal 0) c ≡ true → lte a b ≡ true → lte (mul a c) (mul b c) ≡ true
  mul-lte_left a b c h k = ground (arith, mul-lte c a b h k, ex.mul_comm c a, ex.mul_comm c b)

  -- A weighted average lies between the two values, rounded or not.
  pub average_between :
      (a b s q : Price)
      → lt (decimal 0) s ≡ true
      → lt (decimal 0) q ≡ true
      → lte a b ≡ true
      → let average = div (plus (mul a s) (mul b q)) (plus s q) in
        (lte a average ≡ true) × (lte average b ≡ true)
  average_between a b s q hs hq h =
      let total = plus (mul a s) (mul b q) in
      let weight = plus s q in
      let positive = plus-pos s q hs hq in
      let low = plus-lte_right (mul a q) (mul b q) (mul a s) (mul-lte_left a b q hq h) in
      let high = plus-lte (mul a s) (mul b s) (mul b q) (mul-lte_left a b s hs h) in
      (
        ground (
          arith,
          ex.div_mono (mul a weight) total weight positive,
          ex.div-mul_cancel a weight positive,
          ex.mul-plus a s q,
          low,
        ),
        ground (
          arith,
          ex.div_mono total (mul b weight) weight positive,
          ex.div-mul_cancel b weight positive,
          ex.mul-plus b s q,
          high,
        ),
      )
