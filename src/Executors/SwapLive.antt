-- ===== src/Executors/SwapLive.antt =====
-- packages/engine/src/swap-live-executor.ts. Its calls change the state `S` of the venue, the clock
-- and the generator; the orders that it tells `onOrderStateChange` are returned in order. A reason of
-- a rejection is not used by the source, and left out.
use traderton.Prelude.{ℕ, String, Option, none, some, if◌then◌else◌}
use traderton.Decimal.{DecimalLib, Price, Quantity, decimal, div, copy, is_zero}
use traderton.Result.{Result}
use traderton.Order.{
  OrderSide, pending, filled, rejected, prepared, submit_attempting, venue_acknowledged, terminal,
  ManagedOrder, FillEvent,
}
use traderton.Position.{is_buy}
use traderton.Planner.{PlannedOrder, ExecutionPlan}
use traderton.Executors.{IdGenerator}
use traderton.Executors.Shadow.{SwapQuoteParams, SwapQuote}

module _ ⦃lib : DecimalLib⦄ where
  pub record SwapReceipt : Type 0 where
    pub execution_ref : String
    pub input_amount : Quantity
    pub output_amount : Quantity
    pub timestamp : String

  pub record SwapCalls (S : Type 0) : Type 0 where
    pub id_gen : IdGenerator S
    pub now : S → S × String
    pub client_order_id : Option (String → ℕ → String)
    pub quote : S → SwapQuoteParams → S × Result SwapQuote String
    pub execute_swap : S → SwapQuote → S × Result SwapReceipt String

  unfoldable pub compute_effective_price : Quantity → Quantity → Price
  compute_effective_price input output =
      if is_zero (copy output) then decimal 0 else div (copy input) (copy output)

  unfoldable pub price_of : OrderSide → Quantity → Quantity → Price
  unfolding compute_effective_price
  price_of side input output =
      if is_buy side
      then compute_effective_price input output
      else compute_effective_price output input

  unfoldable pub prepared_order :
      ExecutionPlan → PlannedOrder → String → Option String → String → ManagedOrder
  prepared_order plan planned order_id client_order_id now = record {
    id = order_id;
    venue_account_id = plan.venue_account_id;
    bot_id = none;
    actor_type = plan.actor_type;
    actor_id = plan.actor_id;
    execution_plan_id = some plan.id;
    venue_ref_id = none;
    client_order_id = client_order_id;
    venue = plan.venue;
    symbol = plan.symbol;
    side = planned.side;
    type = planned.type;
    quantity = planned.quantity;
    price = planned.price;
    time_in_force = none;
    post_only = none;
    reduce_only = none;
    reference_price = none;
    status = pending;
    submission_state = some prepared;
    submit_attempted_at = none;
    acknowledged_at = none;
    transition_history = none;
    transition_history_capped = none;
    filled_quantity = decimal 0;
    avg_fill_price = none;
    created_at = now;
    updated_at = now;
  }

  -- `buildRejectedOrder`, with what an attempt adds: its time and its reference price.
  unfoldable pub rejected_order :
      ManagedOrder → Option String → Option Price → String → ManagedOrder
  rejected_order order attempted_at reference_price now = record order {
    status = rejected;
    submission_state = some terminal;
    submit_attempted_at = attempted_at;
    reference_price = reference_price;
    filled_quantity = decimal 0;
    avg_fill_price = none;
    updated_at = now;
  }

  unfoldable pub attempting_order : ManagedOrder → Price → String → ManagedOrder
  attempting_order order expected_price attempted_at = record order {
    reference_price = some expected_price;
    submission_state = some submit_attempting;
    submit_attempted_at = some attempted_at;
    updated_at = attempted_at;
  }

  unfoldable pub acknowledged_order : ManagedOrder → SwapReceipt → ManagedOrder
  acknowledged_order attempting receipt = record attempting {
    venue_ref_id = some receipt.execution_ref;
    submission_state = some venue_acknowledged;
    acknowledged_at = some receipt.timestamp;
    updated_at = receipt.timestamp;
  }

  unfoldable pub fill_quantity : OrderSide → SwapReceipt → Quantity
  fill_quantity side receipt = if is_buy side then receipt.output_amount else receipt.input_amount

  unfoldable pub filled_order : ManagedOrder → SwapReceipt → ManagedOrder
  unfolding fill_quantity price_of
  filled_order acknowledged receipt =
      let price = price_of acknowledged.side receipt.input_amount receipt.output_amount in
      record acknowledged {
        price = some price;
        status = filled;
        submission_state = some terminal;
        filled_quantity = fill_quantity acknowledged.side receipt;
        avg_fill_price = some price;
      }

  unfoldable pub swap_fill_event : ManagedOrder → SwapReceipt → String → FillEvent
  unfolding fill_quantity price_of
  swap_fill_event order receipt fill_id = record {
    id = fill_id;
    order_id = order.id;
    venue_account_id = order.venue_account_id;
    bot_id = none;
    actor_type = order.actor_type;
    actor_id = order.actor_id;
    venue_ref_id = some receipt.execution_ref;
    venue = order.venue;
    symbol = order.symbol;
    side = order.side;
    quantity = fill_quantity order.side receipt;
    price = price_of order.side receipt.input_amount receipt.output_amount;
    fee = some (decimal 0);
    fee_currency = none;
    filled_at = receipt.timestamp;
  }
