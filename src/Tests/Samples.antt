-- ===== src/Tests/Samples.antt =====
-- Inputs for the runs of the code of packages/engine/src, over whole numbers.
use traderton.Prelude.{arith, refl, suc, ℕ, String, List, [], ◌∷◌, Option, none, some}
use traderton.Prelude.Int.{pos}
use traderton.Decimal.Integers.{whole_numbers, whole_numbers-Exact}
use traderton.Order.{buy, limit, OrderSide, OrderStatus, pending, ManagedOrder, FillEvent}
use traderton.OrderManager.State.{CreateOrderParams, ApplyFillParams, OrderManager}
use traderton.OrderManager.Calls.{Call, acknowledges, fills, cancels}
use traderton.Position.{PositionState, PositionSide, long}
use traderton.Position.Exposure.{IsValid}
use traderton.Planner.{Decision, go_short, ExecutionPlan, open_long}
use traderton.Planner.{pending as plan_pending}
use traderton.Executors.{IdGenerator}
use traderton.RiskGate.{RiskLimits}

abbrev pub no_time : String → Option ℕ
no_time text = none

abbrev pub create_ten : CreateOrderParams
create_ten = record {
  id = "o1";
  venue_account_id = "account";
  bot_id = none;
  actor_type = "agent";
  actor_id = "a1";
  execution_plan_id = some "plan";
  client_order_id = none;
  venue = "venue";
  symbol = "BTC";
  side = buy;
  type = limit;
  quantity = pos 10;
  price = some (pos 5);
}

abbrev pub fill_of : ℕ → ApplyFillParams
fill_of n = record {
  fill_id = "f";
  venue_ref_id = none;
  quantity = pos n;
  price = pos 5;
  fee = some (pos 1);
  fee_currency = none;
  filled_at = "t";
}

abbrev pub no_orders : OrderManager
no_orders = record { orders = []; cap_reached = [] }

abbrev pub order_in : OrderStatus → ManagedOrder
order_in status = record {
  id = "o1";
  venue_account_id = "account";
  bot_id = none;
  actor_type = "agent";
  actor_id = "a1";
  execution_plan_id = some "plan";
  venue_ref_id = none;
  client_order_id = none;
  venue = "venue";
  symbol = "BTC";
  side = buy;
  type = limit;
  quantity = pos 10;
  price = some (pos 5);
  time_in_force = none;
  post_only = none;
  reduce_only = none;
  reference_price = none;
  status = status;
  submission_state = none;
  submit_attempted_at = none;
  acknowledged_at = none;
  transition_history = none;
  transition_history_capped = none;
  filled_quantity = pos 0;
  avg_fill_price = none;
  created_at = "t0";
  updated_at = "t0";
}

abbrev pub one_order : OrderManager
one_order = record { orders = ("o1", order_in pending) ∷ []; cap_reached = [] }

-- Acknowledged, filled in part, and cancelled; a late fill fails.
abbrev pub life : List (String × Call)
life =
    ("t1", acknowledges "o1" "v1")
    ∷ ("t2", fills "o1" (fill_of 4))
    ∷ ("t3", cancels "o1")
    ∷ ("t4", fills "o1" (fill_of 1))
    ∷ []

abbrev pub position : PositionSide → ℕ → ℕ → PositionState
position side size entry = record {
  venue = "venue";
  symbol = "BTC";
  side = side;
  size = pos size;
  entry_price = pos entry;
  realized_pnl = pos 0;
  instrument_id = none;
}

abbrev pub fill : OrderSide → ℕ → ℕ → FillEvent
fill side quantity price = record {
  id = "f";
  order_id = "o1";
  venue_account_id = "account";
  bot_id = none;
  actor_type = "agent";
  actor_id = "a1";
  venue_ref_id = none;
  venue = "venue";
  symbol = "BTC";
  side = side;
  quantity = pos quantity;
  price = pos price;
  fee = some (pos 1);
  fee_currency = none;
  filled_at = "t";
}

pub long_five-IsValid : IsValid (position long 5 10)
long_five-IsValid = record { size_of_flat = λ e. ground (arith, e); size_pos = λ _. refl }

abbrev pub short_ten : Decision
short_ten = record {
  id = "d";
  venue_account_id = "account";
  intent = go_short;
  target_size = pos 10;
  limit_price = none;
  actor_type = "agent";
  actor_id = "a1";
  bot_id = none;
}

abbrev pub no_limits : RiskLimits
no_limits = record {
  max_position_size = none;
  max_open_positions = none;
  max_drawdown = none;
  max_order_notional = none;
  max_position_size_pct = none;
  daily_max_loss_pct = none;
  stop_loss_cooldown_ms = none;
  max_drawdown_pct = none;
}

abbrev pub counter : IdGenerator ℕ
counter = record { order_id = λ n. (suc n, "order"); fill_id = λ n. (suc n, "fill") }

abbrev pub no_orders_plan : ExecutionPlan
no_orders_plan = record {
  id = "plan";
  decision_id = "d";
  venue_account_id = "account";
  bot_id = none;
  actor_type = "agent";
  actor_id = "a1";
  venue = "venue";
  symbol = "BTC";
  action = open_long;
  orders = [];
  status = plan_pending;
  created_at = "t0";
  completed_at = none;
}
