-- ===== src/Position/Exposure.antt =====
-- The signed exposure of a position of packages/engine/src/position-tracker.ts.
use traderton.Prelude.{◌≡◌, refl, inl, inr, true, false, arith, Bool-cases}
use traderton.Decimal.{DecimalLib, Quantity, decimal, plus, minus, neg, lt, gt, is_zero}
use traderton.Decimal.Laws.{Exact}
use traderton.Decimal.Order.{eq_of_equals}
use traderton.Decimal.Sums.{compared_to-minus, abs-minus_of_lt, neg-minus, zero-plus, neg-plus}
use traderton.Decimal.Signs.{plus-pos, minus-pos, abs-minus_pos}
use traderton.Order.{buy, sell, FillEvent}
use traderton.Position.{
  PositionSide, long, short, flat, PositionState, apply_fill, opened, increased, reduced, closed,
  reversed, same_direction, is_flat,
}

module _ ⦃lib : DecimalLib⦄ where
  abbrev pub signed : PositionSide → Quantity → Quantity
  signed long size = size
  signed short size = neg size
  signed flat size = decimal 0

  abbrev pub exposure : PositionState → Quantity
  exposure p = signed p.side p.size

  abbrev pub signed_fill : FillEvent → Quantity
  signed_fill f = elim f.side [ buy ↦ f.quantity | sell ↦ neg f.quantity ]

  -- A flat position has no size and no entry price, any other a positive size.
  pub record IsValid (p : PositionState) : Type 0 where
    pub size_of_flat : p.side ≡ flat → (p.size ≡ decimal 0) × (p.entry_price ≡ decimal 0)
    pub size_pos : is_flat p.side ≡ false → lt (decimal 0) p.size ≡ true

pub flat_of_is_flat : (s : PositionSide) → is_flat s ≡ true → s ≡ flat
flat_of_is_flat s h = ground arith

module _ ⦃lib : DecimalLib⦄ ⦃ex : Exact⦄ where
  -- The case rule of `apply_fill`: the difference that it computes becomes a comparison.
  pub apply_fill_cases {ℓ} :
      (P : PositionState → Type ℓ) (p : PositionState) (f : FillEvent)
      → (p.side ≡ flat → P (opened p f))
      → (is_flat p.side ≡ false → same_direction p f ≡ true → P (increased p f))
      → (is_flat p.side ≡ false
          → same_direction p f ≡ false
          → lt f.quantity p.size ≡ true
          → P (reduced p f))
      → (is_flat p.side ≡ false → same_direction p f ≡ false → p.size ≡ f.quantity → P (closed p f))
      → (is_flat p.side ≡ false
          → same_direction p f ≡ false
          → lt p.size f.quantity ≡ true
          → P (reversed p f))
      → P (apply_fill p f)
  unfolding apply_fill
  apply_fill_cases P p f start more less exact over = elim (Bool-cases (is_flat p.side)) [
    | inl none ↦ rw none (start (flat_of_is_flat p.side none))
    | inr held ↦ elim (Bool-cases (same_direction p f)) [
      | inl same ↦ rw held (rw same (more held same))
      | inr against ↦ elim (Bool-cases (gt (minus p.size f.quantity) (decimal 0))) [
        | inl part ↦ rw held (
            rw against (
              rw part (
                less held against (
                  ground (
                    arith,
                    compared_to-minus p.size f.quantity,
                    ex.compared_to-flip p.size f.quantity,
                  )))))
        | inr not_part ↦ elim (Bool-cases (is_zero (minus p.size f.quantity))) [
          | inl nought ↦ rw held (
              rw against (
                rw not_part (
                  rw nought (
                    exact held against (
                      eq_of_equals p.size f.quantity
                        (ground (arith, compared_to-minus p.size f.quantity)))))))
          | inr beyond ↦ rw held (
              rw against (
                rw not_part (
                  rw beyond
                    (over held against (ground (arith, compared_to-minus p.size f.quantity))))))
        ]
      ]
    ]
  ]

  -- A fill adds its signed quantity to the exposure, whether it opens, increases, reduces, closes or
  -- reverses the position.
  pub exposure-apply_fill :
      (p : PositionState) (f : FillEvent)
      → exposure (apply_fill p f) ≡ plus (exposure p) (signed_fill f)
  unfolding increased reduced closed reversed
  exposure-apply_fill p f =
      apply_fill_cases (λ q. exposure q ≡ plus (exposure p) (signed_fill f)) p f
        (λ none. ground (arith, zero-plus f.quantity, zero-plus (neg f.quantity)))
        (λ held same. ground (arith, neg-plus p.size f.quantity))
        (λ held against less. ground (
          arith,
          ex.minus_lem p.size f.quantity,
          neg-minus p.size f.quantity,
          ex.minus_lem f.quantity p.size,
          ex.plus_comm f.quantity (neg p.size),
        ))
        (λ held against exact. ground (arith, ex.plus-neg p.size, ex.plus_comm (neg p.size) p.size))
        (λ held against over. ground (
          arith,
          abs-minus_of_lt p.size f.quantity over,
          neg-minus f.quantity p.size,
          ex.minus_lem p.size f.quantity,
          ex.minus_lem f.quantity p.size,
          ex.plus_comm f.quantity (neg p.size),
        ))

  -- A fill of a positive quantity keeps a position valid.
  pub apply_fill-IsValid :
      (p : PositionState) (f : FillEvent)
      → IsValid p
      → lt (decimal 0) f.quantity ≡ true
      → IsValid (apply_fill p f)
  unfolding increased reduced closed reversed
  apply_fill-IsValid p f v h =
      apply_fill_cases IsValid p f
        (λ none. record { size_of_flat = λ e. ground arith; size_pos = λ _. h })
        (λ held same. record {
          size_of_flat = λ e. ground arith;
          size_pos = λ _. plus-pos p.size f.quantity (v.size_pos held) h;
        })
        (λ held against less. record {
          size_of_flat = λ e. ground arith;
          size_pos = λ _. minus-pos p.size f.quantity less;
        })
        (λ held against exact. record { size_of_flat = λ e. (refl, refl); size_pos = λ n. cc })
        (λ held against over. record {
          size_of_flat = λ e. ground arith;
          size_pos = λ _. abs-minus_pos p.size f.quantity over;
        })
