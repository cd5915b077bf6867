-- ===== src/DecisionIntake/Execute.antt =====
-- packages/engine/src/decision-intake.ts: the risk gate, the executor and its answer. A step returns
-- the new state of the code that it calls, the trackers, its effects in order, and the outcome. An
-- executor that runs out of time has no later effects.
use traderton.Prelude.{String, true, false, List, [], ◌∷◌, ◌++◌, none, some}
use traderton.Decimal.{DecimalLib}
use traderton.Result.{Result, ok, err}
use traderton.Position.{PositionState}
use traderton.Planner.{ExecutionPlan}
use traderton.RiskGate.{RiskError, check_risk}
use traderton.DecisionIntake.{
  DecisionContext, Submission, IntakeDeps, IntakeTrackers, IntakeCalls, Readings, ExecutorAnswer,
  answers, throws, times_out, Effect, journal_plan, plan_failed, mark_plan_executing,
  mark_plan_failed, journal_risk, starts_executor, DecisionIntakeResult, IntakeOutcome, returns,
  rethrows,
}
use traderton.DecisionIntake.Snapshot.{risk_snapshot}
use traderton.DecisionIntake.Booking.{book_fills, settle}

module _ ⦃lib : DecimalLib⦄ where
  -- A result with nothing set.
  abbrev pub nothing_done : Submission → PositionState → DecisionIntakeResult
  nothing_done submission position = record {
    decision = submission;
    plan = none;
    risk_rejected = false;
    risk_error = none;
    execution_result = none;
    position = position;
    execution_failed = false;
    execution_error = none;
    pre_execution_rejection = none;
  }

  abbrev pub timeout_code : String
  timeout_code = "execution.timeout"

  abbrev pub Run : Type 0 → Type 0
  Run S = S × IntakeTrackers × List Effect × IntakeOutcome

  abbrev pub prepend : {S : Type 0} → List Effect → Run S → Run S
  prepend effects (s, trackers, more, outcome) = (s, trackers, effects ++ more, outcome)

  module _ {S : Type 0} (calls : IntakeCalls S) (deps : IntakeDeps) (clock : Readings) where
    -- 7. and 8. The executor's answer.
    unfoldable pub after_execution :
        Submission
        → DecisionContext
        → PositionState
        → ExecutionPlan
        → IntakeTrackers
        → S
        → ExecutorAnswer
        → Run S
    unfolding book_fills settle
    after_execution submission context position plan trackers s (answers (ok r)) =
        let (trackers', position', booked) =
          book_fills calls deps clock submission trackers position r.fills in
        (
          s,
          trackers',
          booked ++ settle deps submission context plan.id position' r,
          returns (record (nothing_done submission position') {
            plan = some r.plan;
            execution_result = some r;
          }),
        )
    after_execution submission context position plan trackers s (answers (err e)) = (
      s,
      trackers,
      mark_plan_failed plan.id ∷ journal_plan plan plan_failed ∷ [],
      returns (record (nothing_done submission position) {
        plan = some plan;
        execution_failed = true;
        execution_error = some e;
      }),
    )
    after_execution submission context position plan trackers s times_out = (
      s,
      trackers,
      mark_plan_failed plan.id ∷ journal_plan plan plan_failed ∷ [],
      returns (record (nothing_done submission position) {
        plan = some plan;
        execution_failed = true;
        execution_error = some timeout_code;
      }),
    )
    after_execution submission context position plan trackers s (throws e) =
        (s, trackers, [], rethrows e)

    unfoldable pub after_gate :
        Submission
        → DecisionContext
        → PositionState
        → ExecutionPlan
        → IntakeTrackers
        → S
        → Result (Unit {0}) RiskError
        → Run S
    unfolding after_execution
    after_gate submission context position plan trackers s (err e) = (
      s,
      trackers,
      mark_plan_failed plan.id ∷ journal_risk e ∷ [],
      returns (record (nothing_done submission position) {
        plan = some plan;
        risk_rejected = true;
        risk_error = some e;
      }),
    )
    after_gate submission context position plan trackers s (ok u) =
        let (s', answer) = calls.execute s plan context.snapshot_price in
        prepend (mark_plan_executing plan.id ∷ starts_executor plan context.snapshot_price ∷ [])
          (after_execution submission context position plan trackers s' answer)

    -- 6. The risk gate.
    unfoldable pub gate_and_execute :
        Submission → DecisionContext → PositionState → ExecutionPlan → IntakeTrackers → S → Run S
    unfolding after_gate risk_snapshot
    gate_and_execute submission context position plan trackers s =
        let (trackers', snapshot) = risk_snapshot deps trackers position context clock in
        after_gate submission context position plan trackers' s
          (check_risk plan deps.risk_limits snapshot)
