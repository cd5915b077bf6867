-- ===== src/Planner.antt =====
-- packages/engine/src/planner.ts. The argument `now` is the clock's reading; of a decision and of a
-- venue's position the fields that the planner reads.
pub mod Orders
pub mod Targets
use traderton.Prelude.{
  String, Bool, true, false, List, [], ◌∷◌, Option, none, some, map, if◌then◌else◌, is_some,
}
use traderton.Decimal.{DecimalLib, Price, Quantity, decimal, minus, gt}
use traderton.Order.{OrderSide, buy, sell, OrderType, market, limit, swap, TimeInForce}
use traderton.Position.{PositionSide, long, short, flat, is_flat, is_long, is_short}

-- `unrecognised` is what the switch's `default` takes.
pub data DecisionIntent : Type 0 where
  go_long go_short go_flat increase decrease unrecognised : DecisionIntent

pub data VenueType : Type 0 where
  orderbook_venue swap_venue : VenueType

pub data PlanAction : Type 0 where
  open_long open_short close increases reduce reverse : PlanAction

pub data PlanStatus : Type 0 where
  pending executing completed failed : PlanStatus

pub record SwapAssets : Type 0 where
  pub base_asset : String
  pub quote_asset : String

abbrev pub is_swap : Option VenueType → Bool
is_swap (some swap_venue) = true
is_swap _ = false

module _ ⦃lib : DecimalLib⦄ where
  pub record VenuePosition : Type 0 where
    pub symbol : String
    pub side : PositionSide
    pub size : Quantity
    pub entry_price : Price

  pub record Decision : Type 0 where
    pub id : String
    pub venue_account_id : String
    pub intent : DecisionIntent
    pub target_size : Quantity
    pub limit_price : Option Price
    pub actor_type : String
    pub actor_id : String
    pub bot_id : Option String

  pub record SwapParams : Type 0 where
    pub input_asset : String
    pub output_asset : String
    pub amount : Quantity

  pub record PlannedOrder : Type 0 where
    pub side : OrderSide
    pub type : OrderType
    pub quantity : Quantity
    pub price : Option Price
    pub time_in_force : Option TimeInForce
    pub post_only : Option Bool
    pub reduce_only : Option Bool
    pub swap_params : Option SwapParams

  pub record PlannerDeps : Type 0 where
    pub current_position : Option VenuePosition
    pub venue : String
    pub symbol : String
    pub venue_type : Option VenueType
    pub swap_assets : Option SwapAssets

  pub record ExecutionPlan : Type 0 where
    pub id : String
    pub decision_id : String
    pub venue_account_id : String
    pub bot_id : Option String
    pub actor_type : String
    pub actor_id : String
    pub venue : String
    pub symbol : String
    pub action : PlanAction
    pub orders : List PlannedOrder
    pub status : PlanStatus
    pub created_at : String
    pub completed_at : Option String

  abbrev pub current_size : Option VenuePosition → Quantity
  current_size none = decimal 0
  current_size (some p) = p.size

  abbrev pub current_side : Option VenuePosition → PositionSide
  current_side none = flat
  current_side (some p) = p.side

  unfoldable pub resolve_order_type : Decision → PlannerDeps → OrderType
  resolve_order_type decision deps =
      if is_swap deps.venue_type
      then swap
      else if is_some decision.limit_price
      then limit
      else market

  -- An order of the decision's type and limit price, with nothing else set.
  abbrev pub order : Decision → PlannerDeps → OrderSide → Quantity → PlannedOrder
  order decision deps side quantity = record {
    side = side;
    type = resolve_order_type decision deps;
    quantity = quantity;
    price = decision.limit_price;
    time_in_force = none;
    post_only = none;
    reduce_only = none;
    swap_params = none;
  }

  -- `if (quantity.gt(0)) orders.push(…)`
  abbrev pub order_if_positive : Decision → PlannerDeps → OrderSide → Quantity → List PlannedOrder
  order_if_positive decision deps side quantity =
      if gt quantity (decimal 0) then order decision deps side quantity ∷ [] else []

  unfoldable pub plan_go_flat :
      Decision → PlannerDeps → PositionSide → Quantity → PlanAction × List PlannedOrder
  plan_go_flat decision deps side size = (
    close,
    if is_flat side
        then []
        else order_if_positive decision deps (if is_long side then sell else buy) size,
  )

  unfoldable pub plan_go_long :
      Decision → PlannerDeps → PositionSide → Quantity → PlanAction × List PlannedOrder
  plan_go_long decision deps side size =
      if is_short side
      then (
        reverse,
        order decision deps buy size ∷ order_if_positive decision deps buy decision.target_size,
      )
      else (
        if is_flat side then open_long else increases,
        order_if_positive decision deps buy (minus decision.target_size size),
      )

  unfoldable pub plan_go_short :
      Decision → PlannerDeps → PositionSide → Quantity → PlanAction × List PlannedOrder
  plan_go_short decision deps side size =
      if is_swap deps.venue_type
      then (close, if is_long side then order_if_positive decision deps sell size else [])
      else if is_long side
      then (
        reverse,
        order decision deps sell size ∷ order_if_positive decision deps sell decision.target_size,
      )
      else (
        if is_flat side then open_short else increases,
        order_if_positive decision deps sell (minus decision.target_size size),
      )

  unfoldable pub plan_increase :
      Decision → PlannerDeps → PositionSide → Quantity → PlanAction × List PlannedOrder
  plan_increase decision deps side size = (
    increases,
    order_if_positive decision deps (if is_short side then sell else buy)
        (minus decision.target_size size),
  )

  unfoldable pub plan_decrease :
      Decision → PlannerDeps → PositionSide → Quantity → PlanAction × List PlannedOrder
  plan_decrease decision deps side size = (
    reduce,
    order_if_positive decision deps (if is_short side then buy else sell)
        (minus size decision.target_size),
  )

  -- The switch on the intent.
  unfoldable pub plan_intent :
      DecisionIntent
      → Decision
      → PlannerDeps
      → PositionSide
      → Quantity
      → PlanAction × List PlannedOrder
  unfolding plan_go_flat plan_go_long plan_go_short plan_increase plan_decrease
  plan_intent go_flat = plan_go_flat
  plan_intent go_long = plan_go_long
  plan_intent go_short = plan_go_short
  plan_intent increase = plan_increase
  plan_intent decrease = plan_decrease
  plan_intent unrecognised = λ decision deps side size. (close, [])

  -- A buy spends the quote asset, a sell the base asset.
  unfoldable pub with_swap_params : SwapAssets → PlannedOrder → PlannedOrder
  with_swap_params assets o = record o { swap_params = some (params o.side) }
    where
      params : OrderSide → SwapParams
      params buy = record {
        input_asset = assets.quote_asset;
        output_asset = assets.base_asset;
        amount = o.quantity;
      }
      params sell = record {
        input_asset = assets.base_asset;
        output_asset = assets.quote_asset;
        amount = o.quantity;
      }

  unfoldable pub route : PlannerDeps → List PlannedOrder → List PlannedOrder
  route deps orders = elim deps.swap_assets [
    | none ↦ orders
    | some assets ↦ if is_swap deps.venue_type then map (with_swap_params assets) orders else orders
  ]

  unfoldable pub plan_decision : Decision → PlannerDeps → String → ExecutionPlan
  unfolding plan_intent
  plan_decision decision deps now =
      let (action, orders) =
        plan_intent decision.intent decision deps (current_side deps.current_position)
          (current_size deps.current_position) in
      record {
        id = "";
        decision_id = decision.id;
        venue_account_id = decision.venue_account_id;
        bot_id = decision.bot_id;
        actor_type = decision.actor_type;
        actor_id = decision.actor_id;
        venue = deps.venue;
        symbol = deps.symbol;
        action = action;
        orders = route deps orders;
        status = pending;
        created_at = now;
        completed_at = none;
      }
