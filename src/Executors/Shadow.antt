-- ===== src/Executors/Shadow.antt =====
-- packages/engine/src/shadow-executor.ts: its data, the price of a fill, and the
-- orders and fills that it makes.
use Prim.Native.String.{◌++◌ as append}
use traderton.Prelude.{ℕ, String, Bool, false, Option, none, some, get_or, if◌then◌else◌}
use traderton.Decimal.{DecimalLib, Price, Quantity, gte, lte}
use traderton.Order.{OrderSide, OrderStatus, ManagedOrder, FillEvent}
use traderton.Position.{is_buy}
use traderton.Planner.{PlannedOrder, ExecutionPlan}
use traderton.Executors.{IdGenerator, FeeSimulatorConfig, fee_of}
use traderton.Result.{Result}

module _ ⦃lib : DecimalLib⦄ where
  pub record TickerSnapshot : Type 0 where
    pub symbol : String
    pub last : Price
    pub bid : Option Price
    pub ask : Option Price
    pub timestamp : String

  pub record SwapQuoteParams : Type 0 where
    pub input_asset : String
    pub output_asset : String
    pub amount : Quantity
    pub slippage_bps : ℕ

  -- Of a quote the amounts, which is what the executor reads.
  pub record SwapQuote : Type 0 where
    pub input_amount : Quantity
    pub expected_output_amount : Quantity

  -- What the executor talks to: `idGen`, `feed.getTicker`, and the quotes of a swap venue.
  pub record World (S : Type 0) : Type 0 where
    pub id_gen : IdGenerator S
    pub get_ticker : S → String → Option TickerSnapshot
    pub swap_venue : Option (S → SwapQuoteParams → S × Result SwapQuote String)

  pub record ResolvedFill : Type 0 where
    pub price : Price
    pub timestamp : String

  pub record PendingLimit : Type 0 where
    pub order_id : String
    pub plan : ExecutionPlan
    pub side : OrderSide
    pub quantity : Quantity
    pub limit_price : Price
    pub created_at : String
    pub resolved : Bool
    pub resolved_fill : Option ResolvedFill

  -- One turn of the loop: an order that is filled at once, or one that rests.
  pub data Placement : Type 0 where
    filled_at_once : ManagedOrder → FillEvent → Placement
    resting : ManagedOrder → PendingLimit → Placement

  abbrev pub ask_of : TickerSnapshot → Price
  ask_of t = get_or t.ask t.last

  abbrev pub bid_of : TickerSnapshot → Price
  bid_of t = get_or t.bid t.last

  -- A taker buys at the ask and sells at the bid.
  unfoldable pub determine_fill_price : OrderSide → Option TickerSnapshot → Price → Price
  determine_fill_price side none fallback = fallback
  determine_fill_price side (some t) fallback = if is_buy side then ask_of t else bid_of t

  unfoldable pub is_limit_triggered : OrderSide → Price → Option TickerSnapshot → Bool
  is_limit_triggered side limit_price none = false
  is_limit_triggered side limit_price (some t) =
      if is_buy side then lte (ask_of t) limit_price else gte (bid_of t) limit_price

  unfoldable pub shadow_order :
      ExecutionPlan
      → PlannedOrder
      → String
      → Option Price
      → OrderStatus
      → Quantity
      → Option Price
      → String
      → ManagedOrder
  shadow_order plan planned order_id price status filled_quantity avg_fill_price now = record {
    id = order_id;
    venue_account_id = plan.venue_account_id;
    bot_id = none;
    actor_type = plan.actor_type;
    actor_id = plan.actor_id;
    execution_plan_id = some plan.id;
    venue_ref_id = some (append "shadow-" order_id);
    client_order_id = none;
    venue = plan.venue;
    symbol = plan.symbol;
    side = planned.side;
    type = planned.type;
    quantity = planned.quantity;
    price = price;
    time_in_force = none;
    post_only = none;
    reduce_only = none;
    reference_price = none;
    status = status;
    submission_state = none;
    submit_attempted_at = none;
    acknowledged_at = none;
    transition_history = none;
    transition_history_capped = none;
    filled_quantity = filled_quantity;
    avg_fill_price = avg_fill_price;
    created_at = now;
    updated_at = now;
  }

  unfoldable pub shadow_fill :
      Option FeeSimulatorConfig
      → ExecutionPlan
      → OrderSide
      → String
      → String
      → Quantity
      → Price
      → String
      → FillEvent
  shadow_fill config plan side order_id fill_id quantity price filled_at = record {
    id = fill_id;
    order_id = order_id;
    venue_account_id = plan.venue_account_id;
    bot_id = none;
    actor_type = plan.actor_type;
    actor_id = plan.actor_id;
    venue_ref_id = some (append "shadow-" fill_id);
    venue = plan.venue;
    symbol = plan.symbol;
    side = side;
    quantity = quantity;
    price = price;
    fee = some (fee_of config price quantity);
    fee_currency = some "USD";
    filled_at = filled_at;
  }

  unfoldable pub pending_limit :
      ExecutionPlan → PlannedOrder → String → Price → String → PendingLimit
  pending_limit plan planned order_id limit_price now = record {
    order_id = order_id;
    plan = plan;
    side = planned.side;
    quantity = planned.quantity;
    limit_price = limit_price;
    created_at = now;
    resolved = false;
    resolved_fill = none;
  }
