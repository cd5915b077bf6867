-- ===== src/DecisionIntake.antt =====
-- packages/engine/src/decision-intake.ts: what a decision is submitted with, what the intake calls,
-- and what it returns. A price's text in a context counts as the price that it denotes; the
-- strategy's parameters and the snapshot's data, which are only hashed and stored, and the safety
-- thresholds, which are only passed on, are left out. A message is left out, and an error its code.
pub mod Hash
pub mod Snapshot
pub mod Booking
pub mod Execute
pub mod Submit
pub mod Outcomes
pub mod Destination
pub mod Landing
pub mod Protocol
pub mod Drawdown
pub mod Cycle
pub mod Cycles
pub mod PaperTrading
use traderton.Prelude.{ℕ, String, Bool, true, false, List, Option, none}
use traderton.Decimal.{DecimalLib, Price, Quantity}
use traderton.Result.{Result}
use traderton.Order.{OrderSide, ManagedOrder, FillEvent}
use traderton.Position.{PositionSide, PositionState}
use traderton.Planner.{Decision, VenueType, SwapAssets, PlannedOrder, PlanAction, ExecutionPlan}
use traderton.RiskGate.{RiskLimits, RiskError}
use traderton.Executors.{ExecutionResult}
use traderton.Trackers.Equity.{EquityTracker}
use traderton.Trackers.DailyLoss.{DailyLossTracker}
use traderton.SwapPositions.{Projections}

pub data RejectionScope : Type 0 where
  risk_gate swap_token_safety planner : RejectionScope

pub record PreExecutionRejection : Type 0 where
  pub scope : RejectionScope
  pub code : String
  pub retryable : Bool

pub record SafetyError : Type 0 where
  pub code : String
  pub retryable : Bool

pub data PlanEventType : Type 0 where
  plan_created plan_completed plan_failed : PlanEventType

module _ ⦃lib : DecimalLib⦄ where
  pub record ContextPosition : Type 0 where
    pub side : PositionSide
    pub size : Quantity
    pub entry_price : Price
    pub realized_pnl : Price

  pub record DecisionContext : Type 0 where
    pub snapshot_symbol : String
    pub snapshot_price : Price
    pub snapshot_timestamp : String
    pub position : Option ContextPosition
    pub mark_price : Price
    pub mark_source : String

  -- A decision with its hash, and its metadata's reason where that is a text.
  pub record Submission : Type 0 where
    pub decision : Decision
    pub context_hash : Option String
    pub reason : Option String

  pub record IntakeDeps : Type 0 where
    pub actor_type : String
    pub actor_id : String
    pub venue : String
    pub symbol : String
    pub instrument_id : Option String
    pub venue_account_id : String
    pub venue_type : Option VenueType
    pub swap_assets : Option SwapAssets
    pub swap_network : Option String
    pub swap_base_token_address : Option String
    pub risk_limits : RiskLimits
    pub safety_override_id : Option String
    pub open_position_count : Option ℕ
    pub equity : Option Price
    pub open_positions : Option (List PositionState)
    pub last_stop_loss_exit_ms : Option ℕ
    pub precomputed_unrealized_pnl : Option Price

  -- The trackers that the intake is given; it changes them in place.
  pub record IntakeTrackers : Type 0 where
    pub equity_tracker : Option EquityTracker
    pub daily_loss_tracker : Option DailyLossTracker
    pub swap_position_tracker : Option Projections

  pub record SafetyRequest : Type 0 where
    pub actor_type : String
    pub actor_id : String
    pub bot_id : Option String
    pub venue : String
    pub venue_account_id : String
    pub network : String
    pub token_address : String
    pub token_symbol : Option String
    pub estimated_order_notional_usd : Option Price
    pub override_id : Option String

  -- The executor returns, throws, or is still running when the time is up.
  pub data ExecutorAnswer : Type 0 where
    answers : Result ExecutionResult String → ExecutorAnswer
    throws : String → ExecutorAnswer
    times_out : ExecutorAnswer

  -- The calls of the intake into code that is given to it, over the state of that code.
  pub record IntakeCalls (S : Type 0) : Type 0 where
    pub plan_id : S → S × String
    pub execute : S → ExecutionPlan → Price → S × ExecutorAnswer
    pub check_swap_target : Option (S → SafetyRequest → S × Result (Unit {0}) SafetyError)
    -- SHA-256 of the context's canonical JSON.
    pub compute_decision_context_hash : DecisionContext → String
    pub to_upper_case : String → String
    -- `Date.parse`, and `new Date(text).getTime()` of a text that is a time.
    pub parse_date : String → Option ℕ
    pub get_time : String → ℕ

  -- The readings of the clocks: the plan's time, and those of `Date.now()`.
  pub record Readings : Type 0 where
    pub created_at : String
    pub loss_ms : ℕ
    pub now_ms : ℕ
    pub fill_ms : ℕ

  pub record PersistFillParams : Type 0 where
    pub fill : FillEvent
    pub venue_account_id : String
    pub bot_id : Option String
    pub actor_type : String
    pub actor_id : String
    pub venue : String
    pub symbol : String
    pub realized_pnl_delta : Price

  pub record PersistPositionParams : Type 0 where
    pub venue_account_id : String
    pub bot_id : Option String
    pub actor_type : String
    pub actor_id : String
    pub venue : String
    pub symbol : String
    pub instrument_id : Option String
    pub side : PositionSide
    pub size : Quantity
    pub entry_price : Price
    pub realized_pnl : Price
    pub mark_source : String
    pub exit_reason : Option String

  -- The calls of the persistence hooks and of the journal, and the executor's start. A stored plan
  -- is the plan, and a stored order the order with the bot that it is stored for.
  pub data Effect : Type 0 where
    persist_decision : Submission → Effect
    persist_decision_context : String → String → DecisionContext → Effect
    journal_decision : Submission → Effect
    persist_plan : ExecutionPlan → Effect
    journal_plan : ExecutionPlan → PlanEventType → Effect
    mark_plan_executing mark_plan_completed mark_plan_failed : String → Effect
    journal_risk : RiskError → Effect
    journal_strategy_error : String → String → String → Effect
    starts_executor : ExecutionPlan → Price → Effect
    journal_fill : FillEvent → Effect
    persist_fill : PersistFillParams → Effect
    persist_position : PersistPositionParams → Effect
    journal_order : ManagedOrder → Effect
    persist_order : ManagedOrder → Option String → Effect

  pub record DecisionIntakeResult : Type 0 where
    pub decision : Submission
    pub plan : Option ExecutionPlan
    pub risk_rejected : Bool
    pub risk_error : Option RiskError
    pub execution_result : Option ExecutionResult
    pub position : PositionState
    pub execution_failed : Bool
    pub execution_error : Option String
    pub pre_execution_rejection : Option PreExecutionRejection

  -- A result, or what is thrown.
  pub data IntakeOutcome : Type 0 where
    returns : DecisionIntakeResult → IntakeOutcome
    hash_mismatch : String → String → IntakeOutcome
    rethrows : String → IntakeOutcome
