-- ===== src/Order.antt =====
-- packages/engine/src/order-state.ts, and the enums of packages/domain/src/enums.ts.
-- A time stamp is the text that `toISOString` makes.
pub mod Lifecycle
use traderton.Prelude.{String, Bool, true, false, List, [], ◌∷◌, Option, any}
use traderton.Decimal.{DecimalLib, Price, Quantity}

pub data OrderSide : Type 0 where
  buy sell : OrderSide

pub data OrderType : Type 0 where
  market limit stop_market stop_limit swap : OrderType

pub data TimeInForce : Type 0 where
  gtc ioc fok po : TimeInForce

pub data OrderStatus : Type 0 where
  pending «open» partial filled cancelled expired replaced rejected : OrderStatus

pub data LiveSubmissionState : Type 0 where
  prepared submit_attempting venue_acknowledged terminal : LiveSubmissionState

abbrev pub same_status : OrderStatus → OrderStatus → Bool
same_status pending pending = true
same_status «open» «open» = true
same_status partial partial = true
same_status filled filled = true
same_status cancelled cancelled = true
same_status expired expired = true
same_status replaced replaced = true
same_status rejected rejected = true
same_status _ _ = false

abbrev pub valid_transitions : OrderStatus → List OrderStatus
valid_transitions pending = «open» ∷ filled ∷ cancelled ∷ expired ∷ rejected ∷ []
valid_transitions «open» = partial ∷ filled ∷ cancelled ∷ expired ∷ replaced ∷ []
valid_transitions partial = partial ∷ filled ∷ cancelled ∷ expired ∷ replaced ∷ []
valid_transitions _ = []

unfoldable pub can_transition : OrderStatus → OrderStatus → Bool
can_transition from to = any (same_status to) (valid_transitions from)

-- `status === 'filled' || status === 'cancelled' || …`
unfoldable pub is_terminal : OrderStatus → Bool
is_terminal filled = true
is_terminal cancelled = true
is_terminal expired = true
is_terminal replaced = true
is_terminal rejected = true
is_terminal _ = false

pub record OrderTransition : Type 0 where
  pub from : OrderStatus
  pub to : OrderStatus
  pub reason : String
  pub timestamp : String
  pub fill_id : Option String
  pub replacement_order_id : Option String

module _ ⦃lib : DecimalLib⦄ where
  pub record ManagedOrder : Type 0 where
    pub id : String
    pub venue_account_id : String
    pub bot_id : Option String
    pub actor_type : String
    pub actor_id : String
    pub execution_plan_id : Option String
    pub venue_ref_id : Option String
    pub client_order_id : Option String
    pub venue : String
    pub symbol : String
    pub side : OrderSide
    pub type : OrderType
    pub quantity : Quantity
    pub price : Option Price
    pub time_in_force : Option TimeInForce
    pub post_only : Option Bool
    pub reduce_only : Option Bool
    pub reference_price : Option Price
    pub status : OrderStatus
    pub submission_state : Option LiveSubmissionState
    pub submit_attempted_at : Option String
    pub acknowledged_at : Option String
    pub transition_history : Option (List OrderTransition)
    pub transition_history_capped : Option Bool
    pub filled_quantity : Quantity
    pub avg_fill_price : Option Price
    pub created_at : String
    pub updated_at : String

  pub record FillEvent : Type 0 where
    pub id : String
    pub order_id : String
    pub venue_account_id : String
    pub bot_id : Option String
    pub actor_type : String
    pub actor_id : String
    pub venue_ref_id : Option String
    pub venue : String
    pub symbol : String
    pub side : OrderSide
    pub quantity : Quantity
    pub price : Price
    pub fee : Option Quantity
    pub fee_currency : Option String
    pub filled_at : String
