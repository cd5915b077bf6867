-- ===== src/Decimal/Order.antt =====
-- The order of decimals, from the laws of `compared_to`.
use traderton.Prelude.{◌≡◌, refl, ◌⊎◌, Ordering, true, not, arith}
use traderton.Decimal.{DecimalLib, Price, lt, lte, gt, gte, equals}
use traderton.Decimal.Laws.{Exact}

module _ ⦃lib : DecimalLib⦄ ⦃ex : Exact⦄ where
  pub compared_to_self : (a : Price) → lib.compared_to a a ≡ Ordering.eq
  compared_to_self a = (ex.compared_to-eq_iff a a).1 refl

  pub gt-flip : (a b : Price) → gt a b ≡ lt b a
  gt-flip a b = ground (arith, ex.compared_to-flip a b)

  pub gte-flip : (a b : Price) → gte a b ≡ lte b a
  gte-flip a b = ground (arith, ex.compared_to-flip a b)

  pub lte-not-lt : (a b : Price) → lte a b ≡ not (lt b a)
  lte-not-lt a b = ground (arith, ex.compared_to-flip a b)

  pub lte_refl : (a : Price) → lte a a ≡ true
  lte_refl a = ground (arith, compared_to_self a)

  pub lte_of_lt : (a b : Price) → lt a b ≡ true → lte a b ≡ true
  lte_of_lt a b h = ground arith

  pub eq_of_equals : (a b : Price) → equals a b ≡ true → a ≡ b
  eq_of_equals a b h = (ex.compared_to-eq_iff a b).0 (ground arith)

  pub lte_trans : (a b c : Price) → lte a b ≡ true → lte b c ≡ true → lte a c ≡ true
  lte_trans a b c p q =
      ground (arith, ex.compared_to-eq_iff a b, ex.compared_to-eq_iff b c, ex.lt_trans a b c)

  pub lt-lte_trans : (a b c : Price) → lt a b ≡ true → lte b c ≡ true → lt a c ≡ true
  lt-lte_trans a b c p q = ground (arith, ex.compared_to-eq_iff b c, ex.lt_trans a b c)

  pub lte_total : (a b : Price) → (lte a b ≡ true) ⊎ (lt b a ≡ true)
  lte_total a b = ground (arith, ex.compared_to-flip a b)

  pub lte_cases : (a b : Price) → lte a b ≡ true → (lt a b ≡ true) ⊎ (a ≡ b)
  lte_cases a b h = ground (arith, ex.compared_to-eq_iff a b)
