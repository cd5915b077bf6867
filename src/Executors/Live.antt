-- ===== src/Executors/Live.antt =====
-- packages/engine/src/live-executor.ts. Its calls change the state `S` of the venue, the clock and
-- the generator; what it tells `onOrderStateChange` and sends to the venue are its effects, in order.
-- A reason of a rejection is only printed, and left out.
use traderton.Prelude.{
  ℕ, suc, String, Bool, true, false, ◌||◌, List, [], ◌∷◌, ◌++◌, Option, none, some, all,
  if◌then◌else◌,
}
use traderton.Decimal.{DecimalLib, Price, Quantity, decimal}
use traderton.Result.{Result, ok, err}
use traderton.Order.{
  OrderSide, OrderType, market, limit, TimeInForce, OrderStatus, pending, filled, cancelled,
  rejected, same_status, LiveSubmissionState, prepared, submit_attempting, venue_acknowledged,
  terminal, ManagedOrder,
}
use traderton.OrderUpdate.{VenueCapabilities, VenueCapabilityError, validate_order_attributes}
use traderton.Planner.{PlannedOrder, ExecutionPlan, failed, executing}
use traderton.Executors.{IdGenerator, ExecutionResult}

module _ ⦃lib : DecimalLib⦄ where
  pub record OrderCommand : Type 0 where
    pub symbol : String
    pub side : OrderSide
    pub type : OrderType
    pub quantity : Quantity
    pub price : Option Price
    pub client_order_id : Option String
    pub time_in_force : Option TimeInForce
    pub post_only : Option Bool
    pub reduce_only : Option Bool

  pub record OrderReceipt : Type 0 where
    pub order_id : String
    pub status : OrderStatus
    pub venue_ref_id : String
    pub timestamp : String

  pub record LiveCalls (S : Type 0) : Type 0 where
    pub id_gen : IdGenerator S
    pub now : S → S × String
    pub client_order_id : String → ℕ → String
    pub get_capabilities : S → VenueCapabilities
    pub submit_order : S → OrderCommand → S × Result OrderReceipt String

  pub data LiveEffect : Type 0 where
    tells : ManagedOrder → LiveEffect
    submits : OrderCommand → LiveEffect

  -- An order of a plan that has not been submitted.
  unfoldable pub live_order :
      ExecutionPlan
      → PlannedOrder
      → String
      → String
      → Price
      → OrderStatus
      → LiveSubmissionState
      → String
      → ManagedOrder
  live_order plan planned order_id client_order_id reference_price status state now = record {
    id = order_id;
    venue_account_id = plan.venue_account_id;
    bot_id = none;
    actor_type = plan.actor_type;
    actor_id = plan.actor_id;
    execution_plan_id = some plan.id;
    venue_ref_id = none;
    client_order_id = some client_order_id;
    venue = plan.venue;
    symbol = plan.symbol;
    side = planned.side;
    type = planned.type;
    quantity = planned.quantity;
    price = planned.price;
    time_in_force = planned.time_in_force;
    post_only = planned.post_only;
    reduce_only = planned.reduce_only;
    reference_price = some reference_price;
    status = status;
    submission_state = some state;
    submit_attempted_at = none;
    acknowledged_at = none;
    transition_history = none;
    transition_history_capped = none;
    filled_quantity = decimal 0;
    avg_fill_price = none;
    created_at = now;
    updated_at = now;
  }

  unfoldable pub order_command : ExecutionPlan → PlannedOrder → String → OrderCommand
  order_command plan planned client_order_id = record {
    symbol = plan.symbol;
    side = planned.side;
    type = planned.type;
    quantity = planned.quantity;
    price = planned.price;
    client_order_id = some client_order_id;
    time_in_force = planned.time_in_force;
    post_only = planned.post_only;
    reduce_only = planned.reduce_only;
  }

  -- Whether an order may be sent at all: a market order, or a limit order whose attributes the
  -- venue supports.
  abbrev pub is_ok : Result (Unit {0}) VenueCapabilityError → Bool
  is_ok (ok u) = true
  is_ok (err e) = false

  unfoldable pub is_submittable : VenueCapabilities → PlannedOrder → Bool
  is_submittable c planned = elim planned.type [
    | market ↦ true
    | limit ↦ is_ok (
        validate_order_attributes c (record {
          time_in_force = planned.time_in_force;
          post_only = planned.post_only;
          reduce_only = planned.reduce_only;
        }))
    | _ ↦ false
  ]

  abbrev pub is_over : OrderStatus → Bool
  is_over s = same_status s filled || same_status s cancelled || same_status s rejected

  module _ {S : Type 0} (calls : LiveCalls S) (plan : ExecutionPlan) (current_price : Price) where
    -- What the venue answered.
    unfoldable pub after_submit : S → ManagedOrder → Result OrderReceipt String → S × ManagedOrder
    after_submit s attempting (err e) =
        let (s', failed_at) = calls.now s in
        (
          s',
          record attempting {
            status = rejected;
            submission_state = some terminal;
            updated_at = failed_at;
          },
        )
    after_submit s attempting (ok receipt) = (
      s,
      record attempting {
        id = receipt.order_id;
        venue_ref_id = some receipt.venue_ref_id;
        status = receipt.status;
        submission_state = some (if is_over receipt.status then terminal else venue_acknowledged);
        acknowledged_at = some receipt.timestamp;
        updated_at = receipt.timestamp;
      },
    )

    unfoldable pub submit : S → PlannedOrder → String → S × List LiveEffect × ManagedOrder
    unfolding live_order order_command after_submit
    submit s planned client_order_id =
        let (s₁, order_id) = calls.id_gen.order_id s in
        let (s₂, prepared_at) = calls.now s₁ in
        let prepared_order =
          live_order plan planned order_id client_order_id current_price pending prepared
            prepared_at in
        let (s₃, attempted_at) = calls.now s₂ in
        let attempting = record prepared_order {
          submission_state = some submit_attempting;
          submit_attempted_at = some attempted_at;
          updated_at = attempted_at;
        } in
        let command = order_command plan planned client_order_id in
        let (s₄, answer) = calls.submit_order s₃ command in
        let (s₅, answered) = after_submit s₄ attempting answer in
        (
          s₅,
          tells prepared_order ∷ tells attempting ∷ submits command ∷ tells answered ∷ [],
          answered,
        )

    unfoldable pub reject_order :
        S → PlannedOrder → String → String → S × List LiveEffect × ManagedOrder
    unfolding live_order
    reject_order s planned client_order_id now =
        let (s', order_id) = calls.id_gen.order_id s in
        let order =
          live_order plan planned order_id client_order_id current_price rejected terminal now in
        (s', tells order ∷ [], order)

    -- One turn of the loop.
    unfoldable pub handle_order :
        Bool → S → PlannedOrder → String → String → S × List LiveEffect × ManagedOrder
    unfolding submit reject_order
    handle_order true s planned client_order_id now = submit s planned client_order_id
    handle_order false s planned client_order_id now = reject_order s planned client_order_id now

    unfoldable pub handle_orders :
        VenueCapabilities
        → String
        → S
        → ℕ
        → List PlannedOrder
        → S × List LiveEffect × List ManagedOrder
    unfolding handle_order is_submittable
    handle_orders c now s i [] = (s, [], [])
    handle_orders c now s i (planned ∷ more) =
        let (s₁, effects, order) =
          handle_order (is_submittable c planned) s planned (calls.client_order_id plan.id i) now in
        let (s₂, later, orders) = handle_orders c now s₁ (suc i) more in
        (s₂, effects ++ later, order ∷ orders)

    abbrev pub all_rejected : List ManagedOrder → Bool
    all_rejected orders = all (λ o. same_status o.status rejected) orders

    unfoldable pub execute : S → S × List LiveEffect × Result ExecutionResult String
    unfolding handle_orders
    execute s =
        let (s₁, now) = calls.now s in
        let (s₂, effects, orders) =
          handle_orders (calls.get_capabilities s₁) now s₁ 0 plan.orders in
        (
          s₂,
          effects,
          ok (record {
            plan = record plan {
              status = if all_rejected orders then failed else executing;
              completed_at = if all_rejected orders then some now else none;
            };
            orders = orders;
            fills = [];
          }),
        )
