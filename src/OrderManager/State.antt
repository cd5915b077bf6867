-- ===== src/OrderManager/State.antt =====
-- packages/engine/src/order-manager.ts: the manager's state, `create`, `recordTransition` and the
-- checks that the operations share. The map of orders and the calls of `onTransitionCapReached`
-- are the state; the clock's reading is the argument `now`. An error carries the code and the
-- context of the source's error, and not its message.
use traderton.Prelude.{
  String, Bool, true, List, [], ◌∷◌, ◌++◌, Option, none, some, if◌then◌else◌, get_or, length, drop,
  leb, ◌-◌, ℕ,
}
use traderton.Prelude.JsMap.{get, set}
use traderton.Decimal.{DecimalLib, Price, Quantity, decimal}
use traderton.Result.{Result, ok, err}
use traderton.Order.{
  OrderStatus, pending, OrderSide, OrderType, ManagedOrder, OrderTransition, can_transition,
}

abbrev pub max_transitions : ℕ
max_transitions = 50

-- The history is cut to its last 49 entries before the 51st is added.
abbrev pub is_full : List OrderTransition → Bool
is_full history = leb max_transitions (length history)

module _ ⦃lib : DecimalLib⦄ where
  pub data OrderManagerError : Type 0 where
    order_not_found : String → OrderManagerError
    invalid_transition : String → OrderStatus → OrderStatus → OrderManagerError
    order_terminal : String → OrderStatus → OrderManagerError
    overfill : String → Quantity → Quantity → Quantity → OrderManagerError

  pub record CreateOrderParams : Type 0 where
    pub id : String
    pub venue_account_id : String
    pub bot_id : Option String
    pub actor_type : String
    pub actor_id : String
    pub execution_plan_id : Option String
    pub client_order_id : Option String
    pub venue : String
    pub symbol : String
    pub side : OrderSide
    pub type : OrderType
    pub quantity : Quantity
    pub price : Option Price

  pub record ApplyFillParams : Type 0 where
    pub fill_id : String
    pub venue_ref_id : Option String
    pub quantity : Quantity
    pub price : Price
    pub fee : Option Quantity
    pub fee_currency : Option String
    pub filled_at : String

  pub record OrderManager : Type 0 where
    pub orders : List (String × ManagedOrder)
    -- The orders that `onTransitionCapReached` was called with, the latest first.
    pub cap_reached : List ManagedOrder

  unfoldable pub new_order : CreateOrderParams → String → ManagedOrder
  new_order p now = record {
    id = p.id;
    venue_account_id = p.venue_account_id;
    bot_id = p.bot_id;
    actor_type = p.actor_type;
    actor_id = p.actor_id;
    execution_plan_id = p.execution_plan_id;
    venue_ref_id = none;
    client_order_id = p.client_order_id;
    venue = p.venue;
    symbol = p.symbol;
    side = p.side;
    type = p.type;
    quantity = p.quantity;
    price = p.price;
    time_in_force = none;
    post_only = none;
    reduce_only = none;
    reference_price = none;
    status = pending;
    submission_state = none;
    submit_attempted_at = none;
    acknowledged_at = none;
    transition_history = none;
    transition_history_capped = none;
    filled_quantity = decimal 0;
    avg_fill_price = none;
    created_at = now;
    updated_at = now;
  }

  unfoldable pub create : OrderManager → CreateOrderParams → String → OrderManager × ManagedOrder
  unfolding new_order
  create m p now =
      let order = new_order p now in (record m { orders = set order.id order m.orders }, order)

  unfoldable pub record_transition :
      ManagedOrder → OrderStatus → String → Option String → Option String → String → ManagedOrder
  record_transition order to reason replacement_order_id fill_id now =
      if is_full history
      then record order {
        transition_history =
            some (drop (length history - (max_transitions - 1)) history ++ transition ∷ []);
        transition_history_capped = some true;
      }
      else record order { transition_history = some (history ++ transition ∷ []) }
    where
      history : List OrderTransition
      history = get_or order.transition_history []

      transition : OrderTransition
      transition = record {
        from = order.status;
        to = to;
        reason = reason;
        timestamp = now;
        fill_id = fill_id;
        replacement_order_id = replacement_order_id;
      }

  -- Writes the order back under its key; `before` is the order that a full history is reported of.
  abbrev pub commit : OrderManager → String → ManagedOrder → ManagedOrder → OrderManager
  commit m id before after = record {
    orders = set id after m.orders;
    cap_reached =
        if is_full (get_or before.transition_history [])
        then before ∷ m.cap_reached
        else m.cap_reached;
  }

  abbrev pub Outcome : Type 0 → Type 0
  Outcome A = OrderManager × Result A OrderManagerError

  -- The common shape of the operations: look the order up, check the transition, change the order.
  unfoldable pub transition_to :
      OrderManager → String → OrderStatus → (ManagedOrder → ManagedOrder) → Outcome ManagedOrder
  transition_to m id to change = elim (get id m.orders) [
    | none ↦ (m, err (order_not_found id))
    | some order ↦
        if can_transition order.status to
        then (commit m id order (change order), ok (change order))
        else (m, err (invalid_transition id order.status to))
  ]
