-- ===== src/Executors/Placing.antt =====
-- packages/engine/src/shadow-executor.ts: `execute`. The argument `now` is the clock's reading. The
-- orders, fills and pending limits that the loop pushes are one list of placements.
use traderton.Prelude.{
  String, Bool, List, [], ◌∷◌, Option, none, some, get_or, length, ◌==◌, if◌then◌else◌,
}
use traderton.Decimal.{DecimalLib, Price, Quantity, decimal, mul, div, gt, copy}
use traderton.Order.{OrderSide, OrderType, market, swap, filled, «open», ManagedOrder, FillEvent}
use traderton.Position.{is_buy}
use traderton.Planner.{PlannedOrder, ExecutionPlan, completed, executing}
use traderton.Executors.{ExecutionResult, FeeSimulatorConfig}
use traderton.Executors.Symbols.{resolve_swap_assets}
use traderton.Executors.Shadow.{
  TickerSnapshot, SwapQuoteParams, SwapQuote, World, PendingLimit, Placement, filled_at_once,
  resting, ask_of, determine_fill_price, is_limit_triggered, shadow_order, shadow_fill,
  pending_limit,
}
use traderton.Result.{Result, ok, err}

module _ ⦃lib : DecimalLib⦄ where
  -- The pair of assets of a swap: the plan's, or what the symbol says.
  unfoldable pub swap_assets : ExecutionPlan → PlannedOrder → String × String
  unfolding resolve_swap_assets
  swap_assets plan planned = elim planned.swap_params [
    | some params ↦ (params.input_asset, params.output_asset)
    | none ↦ resolve_swap_assets plan.symbol planned.side
  ]

  -- A buy is quoted for the amount of the quote asset that it is expected to cost.
  unfoldable pub quote_amount : PlannedOrder → Option TickerSnapshot → Price → Quantity
  quote_amount planned ticker current_price =
      if is_buy planned.side
      then mul (copy planned.quantity) (copy (estimate ticker))
      else planned.quantity
    where
      estimate : Option TickerSnapshot → Price
      estimate none = current_price
      estimate (some t) = ask_of t

  unfoldable pub effective_price : OrderSide → SwapQuote → Price
  effective_price side q =
      if is_buy side
      then div (copy q.input_amount) (copy q.expected_output_amount)
      else div (copy q.expected_output_amount) (copy q.input_amount)

  -- What the quote executes, and never more than was planned.
  unfoldable pub quoted_quantity : PlannedOrder → SwapQuote → Quantity
  quoted_quantity planned q =
      let raw : Quantity =
        if is_buy planned.side then q.expected_output_amount else q.input_amount in
      if gt (copy raw) (copy planned.quantity) then planned.quantity else raw

  module _ {S : Type 0} (world : World S) (config : Option FeeSimulatorConfig) where
    abbrev pub fill_now :
        S
        → ExecutionPlan
        → PlannedOrder
        → String
        → Option Price
        → Quantity
        → Price
        → String
        → S × Placement
    unfolding shadow_order shadow_fill
    fill_now s plan planned order_id price quantity fill_price now =
        let (s', fill_id) = world.id_gen.fill_id s in
        (
          s',
          filled_at_once
              (shadow_order plan planned order_id price filled quantity (some fill_price) now)
              (shadow_fill config plan planned.side order_id fill_id quantity fill_price now),
        )

    abbrev pub at_ticker : S → ExecutionPlan → PlannedOrder → Price → Price
    at_ticker s plan planned current_price =
        determine_fill_price planned.side (world.get_ticker s plan.symbol) current_price

    unfoldable pub place_market :
        S → ExecutionPlan → PlannedOrder → String → Price → String → S × Placement
    place_market s plan planned order_id current_price now =
        fill_now s plan planned order_id planned.price planned.quantity
          (at_ticker s plan planned current_price) now

    -- The quantity and the price of a swap: the quote's, or else the ticker's.
    unfoldable pub swap_terms :
        S → ExecutionPlan → PlannedOrder → Price → Result SwapQuote String → S × Quantity × Price
    unfolding effective_price quoted_quantity
    swap_terms s plan planned current_price (ok q) =
        (s, quoted_quantity planned q, effective_price planned.side q)
    swap_terms s plan planned current_price (err e) =
        (s, planned.quantity, at_ticker s plan planned current_price)

    unfoldable pub quote_swap :
        Option (S → SwapQuoteParams → S × Result SwapQuote String)
        → S
        → ExecutionPlan
        → PlannedOrder
        → Price
        → S × Quantity × Price
    unfolding swap_assets quote_amount swap_terms
    quote_swap none s plan planned current_price =
        (s, planned.quantity, at_ticker s plan planned current_price)
    quote_swap (some quote) s plan planned current_price =
        let (input_asset, output_asset) = swap_assets plan planned in
        let (s', answer) = quote s (record {
          input_asset = input_asset;
          output_asset = output_asset;
          amount = quote_amount planned (world.get_ticker s plan.symbol) current_price;
          slippage_bps = 50;
        }) in
        swap_terms s' plan planned current_price answer

    unfoldable pub place_swap :
        S → ExecutionPlan → PlannedOrder → String → Price → String → S × Placement
    unfolding quote_swap
    place_swap s plan planned order_id current_price now =
        let (s', quantity, fill_price) = quote_swap world.swap_venue s plan planned current_price in
        fill_now s' plan planned order_id planned.price quantity fill_price now

    -- Any other order rests, unless the market is already through its limit.
    unfoldable pub place_limit :
        S → ExecutionPlan → PlannedOrder → String → Price → String → S × Placement
    unfolding is_limit_triggered shadow_order pending_limit
    place_limit s plan planned order_id current_price now =
        let limit_price = get_or planned.price current_price in
        if is_limit_triggered planned.side limit_price (world.get_ticker s plan.symbol)
        then fill_now s plan planned order_id (some limit_price) planned.quantity limit_price now
        else (
          s,
          resting
              (shadow_order plan planned order_id (some limit_price) «open» (decimal 0) none now)
              (pending_limit plan planned order_id limit_price now),
        )

    -- The three branches on the order's type.
    unfoldable pub place_type :
        OrderType → S → ExecutionPlan → PlannedOrder → String → Price → String → S × Placement
    unfolding place_market place_swap place_limit
    place_type market = place_market
    place_type swap = place_swap
    place_type _ = place_limit

    unfoldable pub place : S → ExecutionPlan → PlannedOrder → Price → String → S × Placement
    unfolding place_type
    place s plan planned current_price now =
        let (s', order_id) = world.id_gen.order_id s in
        place_type planned.type s' plan planned order_id current_price now

    -- The loop over the planned orders.
    unfoldable pub place_all :
        S → ExecutionPlan → Price → String → List PlannedOrder → S × List Placement
    unfolding place
    place_all s plan current_price now [] = (s, [])
    place_all s plan current_price now (planned ∷ more) =
        let (s₁, placement) = place s plan planned current_price now in
        let (s₂, placements) = place_all s₁ plan current_price now more in
        (s₂, placement ∷ placements)

  unfoldable pub orders_of : List Placement → List ManagedOrder
  orders_of [] = []
  orders_of (filled_at_once order fill ∷ more) = order ∷ orders_of more
  orders_of (resting order pending ∷ more) = order ∷ orders_of more

  unfoldable pub fills_of : List Placement → List FillEvent
  fills_of [] = []
  fills_of (filled_at_once order fill ∷ more) = fill ∷ fills_of more
  fills_of (resting order pending ∷ more) = fills_of more

  unfoldable pub pendings_of : List Placement → List PendingLimit
  pendings_of [] = []
  pendings_of (filled_at_once order fill ∷ more) = pendings_of more
  pendings_of (resting order pending ∷ more) = pending ∷ pendings_of more

  -- `fills.length === plan.orders.length`
  abbrev pub all_filled : ExecutionPlan → List FillEvent → Bool
  all_filled plan fills = length fills == length plan.orders

  unfoldable pub result_of : ExecutionPlan → String → List Placement → ExecutionResult
  unfolding orders_of fills_of
  result_of plan now placements =
      let done = all_filled plan (fills_of placements) in
      record {
        plan = record plan {
          status = if done then completed else executing;
          completed_at = if done then some now else none;
        };
        orders = orders_of placements;
        fills = fills_of placements;
      }
