-- ===== src/Executors/Costs.antt =====
-- What packages/engine/src/fee-simulator.ts adds to the price of a fill.
use traderton.Prelude.{
  ◌≡◌, sym, ap, ◌∙◌, if◌then◌else◌, true, Option, none, some, get_or, arith, inl, inr, Bool-cases,
}
use traderton.Decimal.{DecimalLib, Price, decimal, plus, minus, mul, div, lt, lte}
use traderton.Decimal.Laws.{Exact}
use traderton.Decimal.Order.{lte_refl, lte_of_lt, lte-not-lt}
use traderton.Decimal.Sums.{mul-zero, zero-plus, plus-minus}
use traderton.Position.{is_buy}
use traderton.Decimal.Signs.{mul-lte, abs_nonneg, plus-lte}
use traderton.Order.{OrderSide, buy, sell}
use traderton.Executors.{FeeSimulatorConfig, apply_paper_slippage, fee_of, simulate_fee}

module _ ⦃lib : DecimalLib⦄ ⦃ex : Exact⦄ where
  -- Whether `a` is a price that is no better than `b` for an order of the side.
  abbrev pub IsNoBetter : OrderSide → Price → Price → Type 0
  IsNoBetter buy a b = lte b a ≡ true
  IsNoBetter sell a b = lte a b ≡ true

  pub IsNoBetter-refl : (side : OrderSide) (a : Price) → IsNoBetter side a a
  IsNoBetter-refl buy a = lte_refl a
  IsNoBetter-refl sell a = lte_refl a

  div-nonneg :
      (a c : Price)
      → lt (decimal 0) c ≡ true
      → lte (decimal 0) a ≡ true
      → lte (decimal 0) (div a c) ≡ true
  div-nonneg a c h k =
      let zero_div : div (decimal 0) c ≡ decimal 0 =
        ap (λ x. div x c) (sym (mul-zero c) ∙ ex.mul_comm c (decimal 0))
        ∙ ex.div-mul_cancel (decimal 0) c h in
      rw zero_div at (ex.div_mono (decimal 0) a c h k)

  above_one : (f : Price) → lte (decimal 0) f ≡ true → lte (decimal 1) (plus (decimal 1) f) ≡ true
  above_one f h =
      rw (zero-plus (decimal 1), ex.plus_comm f (decimal 1)) at
        (plus-lte (decimal 0) f (decimal 1) h)

  below_one : (f : Price) → lte (decimal 0) f ≡ true → lte (minus (decimal 1) f) (decimal 1) ≡ true
  below_one f h =
      rw
        (
          zero-plus (minus (decimal 1) f),
          ex.plus_comm f (minus (decimal 1) f),
          plus-minus (decimal 1) f,
        )
        at (plus-lte (decimal 0) f (minus (decimal 1) f) h)

  -- Simulated slippage is against the order: it buys no cheaper and sells no dearer than the
  -- price it starts from, when that price is positive.
  pub apply_paper_slippage-IsNoBetter :
      (config : FeeSimulatorConfig) (price : Price) (side : OrderSide)
      → lt (decimal 0) price ≡ true
      → IsNoBetter side (apply_paper_slippage config price side) price
  unfolding apply_paper_slippage
  apply_paper_slippage-IsNoBetter config price side h =
      let bps = get_or config.paper_slippage_bps (decimal 0) in
      let factor = div bps (decimal 10_000) in
      elim (Bool-cases (lte bps (decimal 0))) [
        | inl free ↦ rw free (IsNoBetter-refl side price)
        | inr costs ↦
            let up : lte (decimal 0) factor ≡ true =
              div-nonneg bps (decimal 10_000) (ex.decimal_mono 0 10_000 (omega arith))
                (ground (arith, lte-not-lt bps (decimal 0), lte_of_lt (decimal 0) bps)) in
            rw costs (moved side factor up)
      ]
    where
      moved :
          (s : OrderSide) (factor : Price)
          → lte (decimal 0) factor ≡ true
          → IsNoBetter s
              (if is_buy s
                then mul price (plus (decimal 1) factor)
                else mul price (minus (decimal 1) factor))
              price
      moved buy factor up =
          rw (ex.mul-one price) at
            (mul-lte price (decimal 1) (plus (decimal 1) factor) h (above_one factor up))
      moved sell factor up =
          rw (ex.mul-one price) at
            (mul-lte price (minus (decimal 1) factor) (decimal 1) h (below_one factor up))

  pub fee_of-nonneg :
      (config : Option FeeSimulatorConfig) (price quantity : Price)
      → lte (decimal 0) (fee_of config price quantity) ≡ true
  unfolding fee_of simulate_fee
  fee_of-nonneg none price quantity = lte_refl (decimal 0)
  fee_of-nonneg (some config) price quantity =
      abs_nonneg (mul (mul price quantity) config.taker_fee_pct)
