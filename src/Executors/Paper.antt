-- ===== src/Executors/Paper.antt =====
-- packages/engine/src/paper-executor.ts. The argument `now` is the clock's reading.
use Prim.Native.String.{◌++◌ as append}
use traderton.Prelude.{String, List, [], ◌∷◌, Option, none, some, get_or}
use traderton.Decimal.{DecimalLib, Price}
use traderton.Order.{market, filled, ManagedOrder, FillEvent}
use traderton.Planner.{PlannedOrder, ExecutionPlan, completed}
use traderton.Executors.{
  IdGenerator, ExecutionResult, FeeSimulatorConfig, apply_paper_slippage, fee_of,
}
use traderton.Result.{Result, ok}

module _ ⦃lib : DecimalLib⦄ where
  -- Without a limit price, the market's.
  unfoldable pub base_price : PlannedOrder → Price → Price
  base_price planned current_price = elim planned.type [
    | market ↦ current_price
    | _ ↦ get_or planned.price current_price
  ]

  unfoldable pub fill_price : Option FeeSimulatorConfig → PlannedOrder → Price → Price
  unfolding base_price
  fill_price none planned current_price = base_price planned current_price
  fill_price (some config) planned current_price =
      apply_paper_slippage config (base_price planned current_price) planned.side

  unfoldable pub paper_order : ExecutionPlan → PlannedOrder → String → Price → String → ManagedOrder
  paper_order plan planned order_id price now = record {
    id = order_id;
    venue_account_id = plan.venue_account_id;
    bot_id = plan.bot_id;
    actor_type = plan.actor_type;
    actor_id = plan.actor_id;
    execution_plan_id = some plan.id;
    venue_ref_id = some (append "paper-" order_id);
    client_order_id = none;
    venue = plan.venue;
    symbol = plan.symbol;
    side = planned.side;
    type = planned.type;
    quantity = planned.quantity;
    price = planned.price;
    time_in_force = none;
    post_only = none;
    reduce_only = none;
    reference_price = none;
    status = filled;
    submission_state = none;
    submit_attempted_at = none;
    acknowledged_at = none;
    transition_history = none;
    transition_history_capped = none;
    filled_quantity = planned.quantity;
    avg_fill_price = some price;
    created_at = now;
    updated_at = now;
  }

  unfoldable pub paper_fill :
      Option FeeSimulatorConfig
      → ExecutionPlan
      → PlannedOrder
      → String
      → String
      → Price
      → String
      → FillEvent
  paper_fill config plan planned order_id fill_id price now = record {
    id = fill_id;
    order_id = order_id;
    venue_account_id = plan.venue_account_id;
    bot_id = plan.bot_id;
    actor_type = plan.actor_type;
    actor_id = plan.actor_id;
    venue_ref_id = some (append "paper-" fill_id);
    venue = plan.venue;
    symbol = plan.symbol;
    side = planned.side;
    quantity = planned.quantity;
    price = price;
    fee = some (fee_of config price planned.quantity);
    fee_currency = some "USD";
    filled_at = now;
  }

  module _ {S : Type 0} (id_gen : IdGenerator S) (config : Option FeeSimulatorConfig) where
    -- The loop over the planned orders.
    unfoldable pub simulate :
        S
        → ExecutionPlan
        → Price
        → String
        → List PlannedOrder
        → S × List ManagedOrder × List FillEvent
    unfolding paper_order paper_fill fill_price
    simulate s plan current_price now [] = (s, [], [])
    simulate s plan current_price now (planned ∷ more) =
        let (s₁, order_id) = id_gen.order_id s in
        let (s₂, fill_id) = id_gen.fill_id s₁ in
        let price = fill_price config planned current_price in
        let (s₃, orders, fills) = simulate s₂ plan current_price now more in
        (
          s₃,
          paper_order plan planned order_id price now ∷ orders,
          paper_fill config plan planned order_id fill_id price now ∷ fills,
        )

    unfoldable pub execute : S → ExecutionPlan → Price → String → S × Result ExecutionResult String
    unfolding simulate
    execute s plan current_price now =
        let (s', orders, fills) = simulate s plan current_price now plan.orders in
        (
          s',
          ok (record {
            plan = record plan { status = completed; completed_at = some now };
            orders = orders;
            fills = fills;
          }),
        )
