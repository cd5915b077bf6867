-- ===== src/InstrumentExecutor.antt =====
-- packages/engine/src/instrument-executor.ts: one decision on one instrument. An executor is what its
-- `execute` does. The persistence hooks are given, so the effects are those of the intake; a decision
-- names its actor, by default an agent.
pub mod Accounts
use traderton.Prelude.{
  String, Bool, true, false, not, ◌&&◌, List, [], ◌∷◌, Option, none, some, if◌then◌else◌,
}
use traderton.Decimal.{DecimalLib, Price}
use traderton.Result.{Result}
use traderton.Order.{FillEvent, ManagedOrder}
use traderton.Position.{PositionState, is_flat}
use traderton.Planner.{VenueType, orderbook_venue, swap_venue, ExecutionPlan}
use traderton.Executors.{ExecutionResult}
use traderton.DecisionIntake.{
  Submission, IntakeDeps, IntakeTrackers, IntakeCalls, Readings, ExecutorAnswer, Effect,
  PreExecutionRejection, DecisionIntakeResult, IntakeOutcome, returns, hash_mismatch, rethrows,
}
use traderton.DecisionIntake.Booking.{or_else}
use traderton.DecisionIntake.Cycle.{Mark, MarketSnapshot, resolve_reference_mark, decision_context}
use traderton.DecisionIntake.Submit.{submit_decision_for_execution}

pub data ExecutionMode : Type 0 where
  paper_mode shadow_mode live_mode : ExecutionMode

module _ ⦃lib : DecimalLib⦄ where
  abbrev pub Execute : Type 0 → Type 0
  Execute S = S → ExecutionPlan → Price → S × ExecutorAnswer

  -- `live_executor` and `swap_live_executor` are made of the ports, where these are given. The
  -- dependencies of the intake are those that are passed on as they are.
  pub record InstrumentExecutorDeps (S : Type 0) : Type 0 where
    pub execution_mode : ExecutionMode
    pub venue_type : VenueType
    pub executor : Option (Execute S)
    pub live_executor : Option (Execute S)
    pub swap_live_executor : Option (Execute S)
    pub paper_executor : Execute S
    pub mark_source : Option (S → String → S × Result Mark String)
    pub snapshot : MarketSnapshot
    pub intake : IntakeDeps

  pub record InstrumentExecutionResult : Type 0 where
    pub executed : Bool
    pub risk_rejected : Bool
    pub fills : List FillEvent
    pub new_position : PositionState
    pub error : Option String
    pub pre_execution_rejection : Option PreExecutionRejection
    pub orders : Option (List ManagedOrder)
    pub plan_id : Option String

  -- On a swap venue the swap port if there is one, or else the order book's.
  unfoldable pub live_of :
      {S : Type 0} → VenueType → Option (Execute S) → Option (Execute S) → Option (Execute S)
  live_of swap_venue (some swaps) venue_port = some swaps
  live_of _ _ venue_port = venue_port

  unfoldable pub choose_executor : {S : Type 0} → InstrumentExecutorDeps S → Option (Execute S)
  unfolding live_of
  choose_executor deps = or_else deps.executor (elim deps.execution_mode [
    | live_mode ↦ live_of deps.venue_type deps.swap_live_executor deps.live_executor
    | _ ↦ some deps.paper_executor
  ])

  -- Nothing but an error.
  abbrev pub failure : PositionState → String → InstrumentExecutionResult
  failure position message = record {
    executed = false;
    risk_rejected = false;
    fills = [];
    new_position = position;
    error = some message;
    pre_execution_rejection = none;
    orders = none;
    plan_id = none;
  }

  abbrev pub is_some {ℓ} : {A : Type ℓ} → Option A → Bool
  is_some none = false
  is_some (some a) = true

  abbrev pub fills_of : Option ExecutionResult → List FillEvent
  fills_of none = []
  fills_of (some r) = r.fills

  unfoldable pub result_of : DecisionIntakeResult → InstrumentExecutionResult
  result_of r = record {
    executed = is_some r.execution_result && not r.execution_failed && not r.risk_rejected;
    risk_rejected = r.risk_rejected;
    fills = fills_of r.execution_result;
    new_position = r.position;
    error = none;
    pre_execution_rejection = r.pre_execution_rejection;
    orders = elim r.execution_result [ none ↦ none | some e ↦ some e.orders ];
    plan_id = elim r.plan [ none ↦ none | some p ↦ some p.id ];
  }

  -- What is thrown is caught.
  unfoldable pub outcome_of : PositionState → IntakeOutcome → InstrumentExecutionResult
  unfolding result_of
  outcome_of position (returns r) = result_of r
  outcome_of position (hash_mismatch expected supplied) =
      failure position "decision context hash mismatch"
  outcome_of position (rethrows e) = failure position e

  unfoldable pub intake_deps :
      {S : Type 0} → InstrumentExecutorDeps S → Submission → PositionState → IntakeDeps
  intake_deps deps submission position = record deps.intake {
    actor_type = submission.decision.actor_type;
    actor_id = submission.decision.actor_id;
    venue_type = some deps.venue_type;
    open_position_count =
        or_else deps.intake.open_position_count (some (if is_flat position.side then 0 else 1));
  }

  module _ {S : Type 0} (calls : IntakeCalls S) (deps : InstrumentExecutorDeps S)
      (clock : Readings) where
    unfoldable pub execute_with :
        Option (Execute S)
        → Submission
        → PositionState
        → IntakeTrackers
        → S
        → S × IntakeTrackers × List Effect × InstrumentExecutionResult
    unfolding resolve_reference_mark decision_context submit_decision_for_execution intake_deps
        outcome_of
    execute_with none submission position trackers s = (
      s,
      trackers,
      [],
      failure position "live execution requires venuePort (orderbook) or swapVenue (swap)",
    )
    execute_with (some executor) submission position trackers s =
        let (s', price, source) =
          resolve_reference_mark deps.mark_source s deps.snapshot deps.intake.symbol in
        let context = decision_context deps.snapshot position price source in
        let (s'', trackers', effects, outcome) =
          submit_decision_for_execution (record calls { execute = executor })
            (intake_deps deps submission position) clock submission context position trackers s' in
        (s'', trackers', effects, outcome_of position outcome)

    unfoldable pub execute_decision :
        Submission
        → PositionState
        → IntakeTrackers
        → S
        → S × IntakeTrackers × List Effect × InstrumentExecutionResult
    unfolding choose_executor execute_with
    execute_decision submission position trackers s =
        execute_with (choose_executor deps) submission position trackers s
