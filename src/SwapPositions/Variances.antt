-- ===== src/SwapPositions/Variances.antt =====
-- When packages/engine/src/swap-position-tracker.ts reports no variance.
use text.Mathlib.TextEquality.{eq_iff}
use traderton.Prelude.{
  String, str_eq, true, false, ◌||◌, ◌≡◌, ◌↔◌, refl, List, [], ◌∷◌, ◌++◌, is_some, get_or, any,
  arith, inl, inr, Bool-cases,
}
use traderton.Prelude.JsMap.{get, keys}
use traderton.Decimal.{DecimalLib, Quantity, decimal, minus, is_zero}
use traderton.Decimal.Laws.{Exact}
use traderton.Decimal.Order.{eq_of_equals}
use traderton.Decimal.Sums.{compared_to-minus}
use traderton.SwapPositions.{
  Projections, SwapBalanceVariance, distinct, variance_of, compare_assets,
  compare_to_observed_balances, get_projected_balance_delta,
}

module _ {ℓ} {V : Type ℓ} where
  any-keys : (a : String) (m : List (String × V)) → any (str_eq a) (keys m) ≡ is_some (get a m)
  unfolding get
  any-keys a [] = refl
  any-keys a ((j, v) ∷ m) = ground (arith, eq_iff a j, eq_iff j a, any-keys a m)

any-append :
    (a : String) (xs ys : List String)
    → any (str_eq a) (xs ++ ys) ≡ (any (str_eq a) xs || any (str_eq a) ys)
any-append a [] ys = refl
any-append a (x ∷ xs) ys = ground (arith, any-append a xs ys)

-- Nothing is lost among the distinct names.
any-distinct :
    (a : String) (seen names : List String)
    → (any (str_eq a) (distinct seen names) || any (str_eq a) seen)
      ≡ (any (str_eq a) names || any (str_eq a) seen)
unfolding distinct
any-distinct a seen [] = refl
any-distinct a seen (x ∷ names) = elim (Bool-cases (any (str_eq x) seen)) [
  | inl known ↦ ground (arith, known, eq_iff a x, any-distinct a seen names)
  | inr fresh ↦ ground (arith, fresh, any-distinct a (x ∷ seen) names)
]

module _ ⦃lib : DecimalLib⦄ where
  abbrev pub observed_of : List (String × Quantity) → String → Quantity
  observed_of observed asset = get_or (get asset observed) (decimal 0)

  abbrev pub AreEqual : Projections → List (String × Quantity) → String → Type 0
  AreEqual m observed asset = observed_of observed asset ≡ get_projected_balance_delta m asset

module _ ⦃lib : DecimalLib⦄ ⦃ex : Exact⦄ where
  is_zero_iff : (a b : Quantity) → (is_zero (minus a b) ≡ true) ↔ (a ≡ b)
  is_zero_iff a b = (
    λ h. eq_of_equals a b (ground (arith, h, compared_to-minus a b)),
    λ h. ground (arith, compared_to-minus a b, ex.compared_to-eq_iff a b),
  )

  variance_of-empty_iff :
      (m : Projections) (observed : List (String × Quantity)) (a : String)
      (rest : List SwapBalanceVariance)
      → (variance_of m observed a rest ≡ []) ↔ (AreEqual m observed a × (rest ≡ []))
  unfolding variance_of
  variance_of-empty_iff m observed a rest =
      let z = is_zero_iff (observed_of observed a) (get_projected_balance_delta m a) in
      elim (Bool-cases
        (is_zero (minus (observed_of observed a) (get_projected_balance_delta m a)))) [
          | inl zero ↦ (λ h. (z.0 zero, ground (arith, h, zero)), λ h. ground (arith, h, zero))
          | inr other ↦ (λ h. ground (arith, h, other), λ h. ground (arith, h, other, z.1 h.0))
        ]

  compare_assets-empty :
      (m : Projections) (observed : List (String × Quantity)) (names : List String) (a : String)
      → compare_assets m observed names ≡ []
      → any (str_eq a) names ≡ true
      → AreEqual m observed a
  unfolding compare_assets
  compare_assets-empty m observed [] a h k = ground (arith, k)
  compare_assets-empty m observed (x ∷ names) a h k =
      let (same, rest) =
        (variance_of-empty_iff m observed x (compare_assets m observed names)).0 h in
      elim (Bool-cases (str_eq a x)) [
        | inl hit ↦ rw ((eq_iff a x).0 hit) same
        | inr miss ↦ compare_assets-empty m observed names a rest (ground (arith, k, miss))
      ]

  empty-compare_assets :
      (m : Projections) (observed : List (String × Quantity)) (names : List String)
      → ((a : String) → AreEqual m observed a)
      → compare_assets m observed names ≡ []
  unfolding compare_assets
  empty-compare_assets m observed [] h = refl
  empty-compare_assets m observed (x ∷ names) h =
      (variance_of-empty_iff m observed x (compare_assets m observed names)).1
        (h x, empty-compare_assets m observed names h)

  unknown_asset :
      (m : Projections) (observed : List (String × Quantity)) (a : String)
      → any (str_eq a) (distinct [] (keys m ++ keys observed)) ≡ false
      → AreEqual m observed a
  unfolding get_projected_balance_delta
  unknown_asset m observed a h = ground (
    arith,
    h,
    any-distinct a [] (keys m ++ keys observed),
    any-append a (keys m) (keys observed),
    any-keys a m,
    any-keys a observed,
  )

  -- The comparison with the observed balances reports nothing exactly when, for every asset, the
  -- observed balance, or 0, is the projected delta, or 0.
  pub compare_to_observed_balances_iff :
      (m : Projections) (observed : List (String × Quantity))
      → (compare_to_observed_balances m observed ≡ []) ↔ ((a : String) → AreEqual m observed a)
  unfolding compare_to_observed_balances
  compare_to_observed_balances_iff m observed =
      let names = distinct [] (keys m ++ keys observed) in
      (
        λ h a. elim (Bool-cases (any (str_eq a) names)) [
          | inl known ↦ compare_assets-empty m observed names a h known
          | inr unknown ↦ unknown_asset m observed a unknown
        ],
        λ h. empty-compare_assets m observed names h,
      )
