-- ===== src/Planner/Targets.antt =====
-- Where the fills of a plan of packages/engine/src/planner.ts take a position.
use traderton.Prelude.{
  String, Option-cases, ◌≡◌, refl, sym, ap, ◌∙◌, true, List, [], ◌∷◌, arith, inl, inr, Bool-cases,
  map,
}
use traderton.Decimal.{DecimalLib, Quantity, decimal, plus, minus, neg, lte}
use traderton.Decimal.Laws.{Exact}
use traderton.Decimal.Sums.{compared_to-minus, neg-zero}
use traderton.Order.{sell}
use traderton.Position.{PositionSide, long, short, flat}
use traderton.Position.Exposure.{signed}
use traderton.Planner.{
  SwapAssets, DecisionIntent, go_long, go_short, go_flat, increase, decrease, unrecognised,
  Decision, PlannerDeps, PlannedOrder, plan_intent, plan_go_long, plan_go_short, order_if_positive,
  with_swap_params, route, plan_decision, current_side, current_size, is_swap,
}
use traderton.Planner.Orders.{
  IsHeld, buy_down, buy_in, buy_out, buy_up, destination, filled_exposure, sell_down, sell_in,
  sell_out, sell_up, signed_order,
}

module _ ⦃lib : DecimalLib⦄ ⦃ex : Exact⦄ where
  go_long_destination :
      (d : Decision) (deps : PlannerDeps) (side : PositionSide) (size : Quantity)
      → IsHeld side size
      → filled_exposure (signed side size) (plan_go_long d deps side size).1
        ≡ destination go_long (is_swap deps.venue_type) side size d.target_size
  unfolding plan_go_long
  go_long_destination d deps long size h = buy_up d deps size d.target_size
  go_long_destination d deps short size h =
      buy_in d deps (plus (neg size) size) d.target_size
        (ex.plus_comm (neg size) size ∙ ex.plus-neg size)
  go_long_destination d deps flat size h = rw h (buy_up d deps (decimal 0) d.target_size)

  go_short_destination :
      (d : Decision) (deps : PlannerDeps) (side : PositionSide) (size : Quantity)
      → IsHeld side size
      → filled_exposure (signed side size) (plan_go_short d deps side size).1
        ≡ destination go_short (is_swap deps.venue_type) side size d.target_size
  unfolding plan_go_short
  go_short_destination d deps long size h = elim (Bool-cases (is_swap deps.venue_type)) [
    | inl swaps ↦ rw swaps (sell_out d deps size h)
    | inr orders ↦
        rw orders (sell_in d deps (plus size (neg size)) d.target_size (ex.plus-neg size))
  ]
  go_short_destination d deps short size h = elim (Bool-cases (is_swap deps.venue_type)) [
    | inl swaps ↦ rw swaps refl
    | inr orders ↦ rw orders (sell_up d deps size d.target_size)
  ]
  go_short_destination d deps flat size h = elim (Bool-cases (is_swap deps.venue_type)) [
    | inl swaps ↦ rw swaps refl
    | inr orders ↦ rw orders (
        rw h (
          ap
            (λ e.
              filled_exposure e (order_if_positive d deps sell (minus d.target_size (decimal 0))))
            (sym neg-zero)
          ∙ sell_up d deps (decimal 0) d.target_size))
  ]

  nothing_to_decrease :
      (d : Decision) (deps : PlannerDeps) (target : Quantity)
      → lte (decimal 0) target ≡ true
      → order_if_positive d deps sell (minus (decimal 0) target) ≡ []
  nothing_to_decrease d deps target t = ground (arith, compared_to-minus (decimal 0) target)

  pub plan_intent-destination :
      (intent : DecisionIntent) (d : Decision) (deps : PlannerDeps) (side : PositionSide)
      (size : Quantity)
      → IsHeld side size
      → lte (decimal 0) d.target_size ≡ true
      → filled_exposure (signed side size) (plan_intent intent d deps side size).1
        ≡ destination intent (is_swap deps.venue_type) side size d.target_size
  unfolding plan_intent
  plan_intent-destination go_long d deps side size h t = go_long_destination d deps side size h
  plan_intent-destination go_short d deps side size h t = go_short_destination d deps side size h
  plan_intent-destination go_flat d deps long size h t = sell_out d deps size h
  plan_intent-destination go_flat d deps short size h t = buy_out d deps size h
  plan_intent-destination go_flat d deps flat size h t = refl
  plan_intent-destination increase d deps long size h t = buy_up d deps size d.target_size
  plan_intent-destination increase d deps short size h t = sell_up d deps size d.target_size
  plan_intent-destination increase d deps flat size h t =
      rw h (buy_up d deps (decimal 0) d.target_size)
  plan_intent-destination decrease d deps long size h t = sell_down d deps size d.target_size
  plan_intent-destination decrease d deps short size h t = buy_down d deps size d.target_size
  plan_intent-destination decrease d deps flat size h t =
      rw h (rw (nothing_to_decrease d deps d.target_size t) refl)
  plan_intent-destination unrecognised d deps side size h t = refl

  filled_exposure-map :
      (assets : SwapAssets) (e : Quantity) (os : List PlannedOrder)
      → filled_exposure e (map (with_swap_params assets) os) ≡ filled_exposure e os
  unfolding with_swap_params
  filled_exposure-map assets e [] = refl
  filled_exposure-map assets e (o ∷ os) = filled_exposure-map assets (plus e (signed_order o)) os

  filled_exposure-route :
      (deps : PlannerDeps) (e : Quantity) (os : List PlannedOrder)
      → filled_exposure e (route deps os) ≡ filled_exposure e os
  unfolding route
  filled_exposure-route deps e os = elim (Option-cases deps.swap_assets) [
    | inl absent ↦ rw absent refl
    | inr (assets, found) ↦ elim (Bool-cases (is_swap deps.venue_type)) [
      | inl swaps ↦ rw (found, swaps) (filled_exposure-map assets e os)
      | inr orders ↦ rw (found, orders) refl
    ]
  ]

  -- When every order of a plan is filled completely, the position goes from where it was to the
  -- destination of the decision's intent, on a swap venue and on an order book, provided a held
  -- position has a positive size, a flat one none, and the target is not negative.
  pub plan_decision-destination :
      (d : Decision) (deps : PlannerDeps) (now : String)
      → IsHeld (current_side deps.current_position) (current_size deps.current_position)
      → lte (decimal 0) d.target_size ≡ true
      → filled_exposure
          (signed (current_side deps.current_position) (current_size deps.current_position))
          ((plan_decision d deps now).orders)
        ≡ destination d.intent
            (is_swap deps.venue_type)
            (current_side deps.current_position)
            (current_size deps.current_position)
            d.target_size
  unfolding plan_decision
  plan_decision-destination d deps now h t =
      filled_exposure-route deps
        (signed (current_side deps.current_position) (current_size deps.current_position))
        (plan_intent d.intent d deps (current_side deps.current_position)
          (current_size deps.current_position)).1
      ∙ plan_intent-destination d.intent d deps (current_side deps.current_position)
          (current_size deps.current_position) h t
