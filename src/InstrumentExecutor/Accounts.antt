-- ===== src/InstrumentExecutor/Accounts.antt =====
-- packages/engine/src/instrument-executor.ts: the position that is returned, against the fills.
use traderton.Prelude.{
  String, ◌≡◌, refl, Bool, true, false, not, ◌&&◌, List, [], ◌∷◌, Option, none, some, inl, inr,
  arith, Bool-cases,
}
use traderton.Decimal.{DecimalLib}
use traderton.Result.{Result, ok, err}
use traderton.Position.{PositionState}
use traderton.Planner.{PlannedOrder, ExecutionPlan}
use traderton.RiskGate.{RiskError}
use traderton.Executors.{ExecutionResult}
use traderton.Executors.Filled.{after_fills}
use traderton.DecisionIntake.{
  SafetyError, SafetyRequest, DecisionContext, Submission, IntakeDeps, IntakeTrackers, IntakeCalls,
  Readings, ExecutorAnswer, answers, throws, times_out, DecisionIntakeResult, IntakeOutcome,
  returns, hash_mismatch, rethrows,
}
use traderton.DecisionIntake.Hash.{normalize_context_hash}
use traderton.DecisionIntake.Execute.{after_execution, after_gate, gate_and_execute}
use traderton.DecisionIntake.Submit.{
  without_orders, after_safety, guard_token, guard_purchase, with_orders, plan_and_execute,
  is_mismatch, submit_decision_for_execution,
}
use traderton.DecisionIntake.Landing.{book_fills-position}
use traderton.InstrumentExecutor.{
  Execute, InstrumentExecutorDeps, InstrumentExecutionResult, fills_of, is_some, result_of,
  outcome_of, execute_with, execute_decision, choose_executor, intake_deps,
}

module _ ⦃lib : DecimalLib⦄ where
  -- A result whose position is the one before with the fills of the execution, and without an
  -- execution where it failed or was rejected.
  abbrev pub ResultAccounts : PositionState → DecisionIntakeResult → Type 0
  ResultAccounts position r =
      (r.position ≡ after_fills position (fills_of r.execution_result))
      × ((is_some r.execution_result && not r.execution_failed && not r.risk_rejected)
          ≡ is_some r.execution_result)

  abbrev pub OutcomeAccounts : PositionState → IntakeOutcome → Type 0
  OutcomeAccounts position (returns r) = ResultAccounts position r
  OutcomeAccounts position (hash_mismatch expected supplied) = Unit
  OutcomeAccounts position (rethrows e) = Unit

  module _ {S : Type 0} (calls : IntakeCalls S) (deps : IntakeDeps) (clock : Readings) where
    module _ (submission : Submission) (context : DecisionContext) (position : PositionState)
        (plan : ExecutionPlan) where
      after_execution-Accounts :
          (trackers : IntakeTrackers) (s : S) (answer : ExecutorAnswer)
          → OutcomeAccounts position
              (after_execution calls deps clock submission context position plan trackers s
                answer).3
      unfolding after_execution
      after_execution-Accounts trackers s (answers (ok r)) =
          (book_fills-position calls deps clock submission trackers position r.fills, refl)
      after_execution-Accounts trackers s (answers (err e)) = (refl, refl)
      after_execution-Accounts trackers s times_out = (refl, refl)
      after_execution-Accounts trackers s (throws e) = tt

      after_gate-Accounts :
          (trackers : IntakeTrackers) (s : S) (verdict : Result (Unit {0}) RiskError)
          → OutcomeAccounts position
              (after_gate calls deps clock submission context position plan trackers s verdict).3
      unfolding after_gate
      after_gate-Accounts trackers s (err e) = (refl, refl)
      after_gate-Accounts trackers s (ok u) = after_execution-Accounts trackers _ _

      gate_and_execute-Accounts :
          (trackers : IntakeTrackers) (s : S)
          → OutcomeAccounts position
              (gate_and_execute calls deps clock submission context position plan trackers s).3
      unfolding gate_and_execute
      gate_and_execute-Accounts trackers s = after_gate-Accounts _ s _

      after_safety-Accounts :
          (trackers : IntakeTrackers) (s : S) (verdict : Result (Unit {0}) SafetyError)
          → OutcomeAccounts position
              (after_safety calls deps clock submission context position plan trackers s verdict).3
      unfolding after_safety
      after_safety-Accounts trackers s (err e) = (refl, refl)
      after_safety-Accounts trackers s (ok u) = gate_and_execute-Accounts trackers s

      guard_purchase-Accounts :
          (guarded : Bool) (check : S → SafetyRequest → S × Result (Unit {0}) SafetyError)
          (address : String) (trackers : IntakeTrackers) (s : S)
          → OutcomeAccounts position
              (guard_purchase calls deps clock guarded check address submission context position
                plan trackers s).3
      unfolding guard_purchase
      guard_purchase-Accounts false check address trackers s = gate_and_execute-Accounts trackers s
      guard_purchase-Accounts true check address trackers s = after_safety-Accounts trackers _ _

      guard_token-Accounts :
          (check : Option (S → SafetyRequest → S × Result (Unit {0}) SafetyError))
          (address : Option String) (trackers : IntakeTrackers) (s : S)
          → OutcomeAccounts position
              (guard_token calls deps clock check address submission context position plan trackers
                s).3
      unfolding guard_token
      guard_token-Accounts (some check) (some address) trackers s =
          guard_purchase-Accounts _ check address trackers s
      guard_token-Accounts (some check) none trackers s = gate_and_execute-Accounts trackers s
      guard_token-Accounts none address trackers s = gate_and_execute-Accounts trackers s

      with_orders-Accounts :
          (orders : List PlannedOrder) (trackers : IntakeTrackers) (s : S)
          → OutcomeAccounts position
              (with_orders calls deps clock orders submission context position plan trackers s).3
      unfolding with_orders without_orders
      with_orders-Accounts [] trackers s = ground arith
      with_orders-Accounts (o ∷ os) trackers s = guard_token-Accounts _ _ trackers s

    submit_decision_for_execution-Accounts :
        (submission : Submission) (context : DecisionContext) (position : PositionState)
        (trackers : IntakeTrackers) (s : S)
        → OutcomeAccounts position
            (submit_decision_for_execution calls deps clock submission context position trackers
              s).3
    unfolding submit_decision_for_execution plan_and_execute
    submit_decision_for_execution-Accounts submission context position trackers s =
        let hash = calls.compute_decision_context_hash context in
        elim (Bool-cases (is_mismatch (normalize_context_hash submission.context_hash) hash)) [
          | inl different ↦ rw different tt
          | inr same ↦ rw same (with_orders-Accounts _ context position _ _ trackers _)
        ]

  -- What is returned for a decision: the position after the fills, and no fill unless it is executed.
  abbrev pub Accounts : PositionState → InstrumentExecutionResult → Type 0
  Accounts position r =
      (r.new_position ≡ after_fills position r.fills) × (r.executed ≡ false → r.fills ≡ [])

  result_of-Accounts :
      (position : PositionState) (o : Option ExecutionResult) (executed : Bool)
      → executed ≡ is_some o
      → executed ≡ false
      → fills_of o ≡ []
  result_of-Accounts position none executed h n = refl
  result_of-Accounts position (some r) executed h n = cc

  outcome_of-Accounts :
      (position : PositionState) (o : IntakeOutcome)
      → OutcomeAccounts position o
      → Accounts position (outcome_of position o)
  unfolding outcome_of result_of
  outcome_of-Accounts position (returns r) h =
      (h.0, result_of-Accounts position r.execution_result _ h.1)
  outcome_of-Accounts position (hash_mismatch expected supplied) h = (refl, λ e. refl)
  outcome_of-Accounts position (rethrows e) h = (refl, λ e. refl)

  execute_with-Accounts :
      {S : Type 0} (calls : IntakeCalls S) (deps : InstrumentExecutorDeps S) (clock : Readings)
      (chosen : Option (Execute S)) (submission : Submission) (position : PositionState)
      (trackers : IntakeTrackers) (s : S)
      → Accounts position (execute_with calls deps clock chosen submission position trackers s).3
  unfolding execute_with
  execute_with-Accounts calls deps clock none submission position trackers s = (refl, λ e. refl)
  execute_with-Accounts calls deps clock (some executor) submission position trackers s =
      outcome_of-Accounts position _ (
        submit_decision_for_execution-Accounts (record calls { execute = executor })
          (intake_deps deps submission position) clock submission _ position trackers _)

  -- Whatever the mode, the ports, the executor, the guard, the gate and the clocks are and answer:
  -- the position that is returned is the one that was given with the returned fills applied in
  -- order, and a decision that is not executed returns no fill.
  pub execute_decision-Accounts :
      {S : Type 0} (calls : IntakeCalls S) (deps : InstrumentExecutorDeps S) (clock : Readings)
      (submission : Submission) (position : PositionState) (trackers : IntakeTrackers) (s : S)
      → Accounts position (execute_decision calls deps clock submission position trackers s).3
  unfolding execute_decision
  execute_decision-Accounts calls deps clock submission position trackers s =
      execute_with-Accounts calls deps clock (choose_executor deps) submission position trackers s
