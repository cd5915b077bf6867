-- ===== src/Executors/Placements.antt =====
-- How packages/engine/src/shadow-executor.ts places the orders of a plan.
use traderton.Result.{Result, ok, err}
use traderton.Prelude.{
  ◌+◌, String, ◌≡◌, refl, ap, ◌∙◌, ◌↔◌, true, false, List, [], ◌∷◌, Option, none, some, get_or,
  length, arith, inl, inr, Bool-cases,
}
use traderton.Decimal.{DecimalLib, Price, Quantity, decimal, lte}
use traderton.Decimal.Laws.{Exact}
use traderton.Decimal.Order.{lte_refl}
use traderton.Order.{OrderType, market, swap, limit, stop_market, stop_limit, filled, «open»}
use traderton.Planner.{PlannedOrder, ExecutionPlan, completed}
use traderton.Executors.{FeeSimulatorConfig}
use traderton.Executors.Shadow.{
  World, SwapQuote, SwapQuoteParams, Placement, filled_at_once, resting, is_limit_triggered,
  shadow_order, shadow_fill, pending_limit,
}
use traderton.Executors.Placing.{
  quoted_quantity, swap_terms, place_type, quote_swap, fill_now, place_market, place_swap,
  place_limit, place, place_all, fills_of, pendings_of, result_of,
}

empty_of_length {ℓ} : {A : Type ℓ} (xs : List A) → length xs ≡ 0 → xs ≡ []
empty_of_length [] h = refl
empty_of_length (x ∷ xs) h = absurd (omega arith)

module _ ⦃lib : DecimalLib⦄ where
  -- A placement keeps to the planned order: what is filled at once is at most the planned quantity,
  -- on the order's side, and the order says so; what rests is open, unfilled, and waits for the
  -- whole quantity.
  abbrev pub KeepsTo : PlannedOrder → Placement → Type 0
  KeepsTo planned (filled_at_once order fill) =
      (fill.side ≡ planned.side)
      × (lte fill.quantity planned.quantity ≡ true)
      × (fill.order_id ≡ order.id)
      × (order.status ≡ filled)
      × (order.filled_quantity ≡ fill.quantity)
      × (order.avg_fill_price ≡ some fill.price)
  KeepsTo planned (resting order pending) =
      (pending.side ≡ planned.side)
      × (pending.quantity ≡ planned.quantity)
      × (pending.order_id ≡ order.id)
      × (order.status ≡ «open»)
      × (order.filled_quantity ≡ decimal 0)
      × (pending.resolved ≡ false)

  -- One placement for each planned order, in order.
  abbrev pub KeepTo : List PlannedOrder → List Placement → Type 0
  KeepTo [] [] = Unit
  KeepTo (o ∷ os) (p ∷ ps) = KeepsTo o p × KeepTo os ps
  KeepTo _ _ = ⊥

  length-fills_of :
      (ps : List Placement) → length (fills_of ps) + length (pendings_of ps) ≡ length ps
  unfolding fills_of pendings_of
  length-fills_of [] = refl
  length-fills_of (filled_at_once o f ∷ ps) = omega (arith, length-fills_of ps)
  length-fills_of (resting o p ∷ ps) = omega (arith, length-fills_of ps)

module _ ⦃lib : DecimalLib⦄ ⦃ex : Exact⦄ where
  quoted_quantity-lte :
      (planned : PlannedOrder) (q : SwapQuote)
      → lte (quoted_quantity planned q) planned.quantity ≡ true
  unfolding quoted_quantity
  quoted_quantity-lte planned q = ground (
    arith,
    ex.copy_lem planned.quantity,
    ex.copy_lem q.expected_output_amount,
    ex.copy_lem q.input_amount,
    lte_refl planned.quantity,
  )

  module _ {S : Type 0} (world : World S) (config : Option FeeSimulatorConfig) where
    swap_terms-lte :
        (s : S) (plan : ExecutionPlan) (planned : PlannedOrder) (current_price : Price)
        (answer : Result SwapQuote String)
        → lte (swap_terms world config s plan planned current_price answer).1 planned.quantity
          ≡ true
    unfolding swap_terms
    swap_terms-lte s plan planned current_price (ok q) = quoted_quantity-lte planned q
    swap_terms-lte s plan planned current_price (err e) = lte_refl planned.quantity

    quote_swap-lte :
        (venue : Option (S → SwapQuoteParams → S × Result SwapQuote String)) (s : S)
        (plan : ExecutionPlan) (planned : PlannedOrder) (current_price : Price)
        → lte (quote_swap world config venue s plan planned current_price).1 planned.quantity ≡ true
    unfolding quote_swap
    quote_swap-lte none s plan planned current_price = lte_refl planned.quantity
    quote_swap-lte (some quote) s plan planned current_price =
        swap_terms-lte _ plan planned current_price _

    fill_now-KeepsTo :
        (s : S) (plan : ExecutionPlan) (planned : PlannedOrder) (order_id : String)
        (price : Option Price) (quantity : Quantity) (fill_price : Price) (now : String)
        → lte quantity planned.quantity ≡ true
        → KeepsTo planned
            (fill_now world config s plan planned order_id price quantity fill_price now).1
    unfolding shadow_order shadow_fill
    fill_now-KeepsTo s plan planned order_id price quantity fill_price now h =
        (refl, h, refl, refl, refl, refl)

    place_limit-KeepsTo :
        (s : S) (plan : ExecutionPlan) (planned : PlannedOrder) (order_id : String)
        (current_price : Price) (now : String)
        → KeepsTo planned (place_limit world config s plan planned order_id current_price now).1
    unfolding place_limit shadow_order pending_limit
    place_limit-KeepsTo s plan planned order_id current_price now =
        elim (Bool-cases (
          is_limit_triggered planned.side (get_or planned.price current_price)
            (world.get_ticker s plan.symbol))) [
              | inl through ↦ rw through (
                  fill_now-KeepsTo s plan planned order_id _ planned.quantity _ now
                    (lte_refl planned.quantity))
              | inr not_through ↦ rw not_through (refl, refl, refl, refl, refl, refl)
            ]

    place_type-KeepsTo :
        (type : OrderType) (s : S) (plan : ExecutionPlan) (planned : PlannedOrder)
        (order_id : String) (current_price : Price) (now : String)
        → KeepsTo planned (place_type world config type s plan planned order_id current_price now).1
    unfolding place_type place_market place_swap
    place_type-KeepsTo market s plan planned order_id current_price now =
        fill_now-KeepsTo s plan planned order_id _ planned.quantity _ now
          (lte_refl planned.quantity)
    place_type-KeepsTo swap s plan planned order_id current_price now =
        fill_now-KeepsTo _ plan planned order_id _ _ _ now
          (quote_swap-lte world.swap_venue s plan planned current_price)
    place_type-KeepsTo limit s plan planned order_id current_price now =
        place_limit-KeepsTo s plan planned order_id current_price now
    place_type-KeepsTo stop_market s plan planned order_id current_price now =
        place_limit-KeepsTo s plan planned order_id current_price now
    place_type-KeepsTo stop_limit s plan planned order_id current_price now =
        place_limit-KeepsTo s plan planned order_id current_price now

    -- Whatever the market and the swap venue answer, each planned order has one placement, in
    -- order: one that fills at once keeps the side and never exceeds the planned quantity, and one
    -- that rests is open and waits for all of it.
    pub place_all-KeepTo :
        (s : S) (plan : ExecutionPlan) (current_price : Price) (now : String)
        (orders : List PlannedOrder)
        → KeepTo orders (place_all world config s plan current_price now orders).1
    unfolding place_all place
    place_all-KeepTo s plan current_price now [] = tt
    place_all-KeepTo s plan current_price now (o ∷ os) = (
      place_type-KeepsTo o.type _ plan o _ current_price now,
      place_all-KeepTo (place world config s plan o current_price now).0 plan current_price now os,
    )

  length-KeepTo :
      (os : List PlannedOrder) (ps : List Placement) → KeepTo os ps → length ps ≡ length os
  length-KeepTo [] [] h = refl
  length-KeepTo [] (p ∷ ps) h = absurd h
  length-KeepTo (o ∷ os) [] h = absurd h
  length-KeepTo (o ∷ os) (p ∷ ps) (h, hs) = omega (arith, length-KeepTo os ps hs)

  -- The plan is completed exactly when no order of it rests.
  pub result_of-completed_iff :
      (plan : ExecutionPlan) (now : String) (ps : List Placement)
      → KeepTo plan.orders ps
      → ((result_of plan now ps).plan.status ≡ completed) ↔ (pendings_of ps ≡ [])
  unfolding result_of
  result_of-completed_iff plan now ps h =
      let total : length (fills_of ps) + length (pendings_of ps) ≡ length plan.orders =
        length-fills_of ps ∙ length-KeepTo plan.orders ps h in
      (
        λ e. empty_of_length (pendings_of ps) (ground (arith, total, e)),
        λ e. let zero : length (pendings_of ps) ≡ 0 = ap length e in ground (arith, total, zero),
      )
