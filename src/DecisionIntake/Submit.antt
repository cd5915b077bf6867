-- ===== src/DecisionIntake/Submit.antt =====
-- packages/engine/src/decision-intake.ts: `submitDecisionForExecution`, over the gate and the
-- executor. The persistence hooks and the journal do not fail.
use traderton.Prelude.{
  String, str_eq, Bool, true, false, not, get_or, ◌&&◌, List, [], ◌∷◌, Option, none, some, any,
  if◌then◌else◌,
}
use traderton.Decimal.{DecimalLib}
use traderton.Result.{Result, ok, err}
use traderton.Position.{PositionState, is_buy}
use traderton.Planner.{DecisionIntent, go_flat, PlannedOrder, ExecutionPlan, plan_decision, is_swap}
use traderton.DecisionIntake.{
  planner, swap_token_safety, SafetyError, DecisionContext, Submission, IntakeDeps, IntakeTrackers,
  IntakeCalls, SafetyRequest, Readings, persist_decision, persist_decision_context,
  journal_decision, persist_plan, journal_plan, plan_created, mark_plan_failed,
  DecisionIntakeResult, returns, hash_mismatch,
}
use traderton.DecisionIntake.Hash.{normalize_context_hash}
use traderton.DecisionIntake.Snapshot.{planner_deps, safety_request}
use traderton.DecisionIntake.Execute.{Run, prepend, nothing_done, gate_and_execute}

abbrev pub is_go_flat : DecisionIntent → Bool
is_go_flat go_flat = true
is_go_flat _ = false

abbrev pub is_mismatch : Option String → String → Bool
is_mismatch none hash = false
is_mismatch (some supplied) hash = not (str_eq supplied hash)

module _ ⦃lib : DecimalLib⦄ where
  -- `{ ...planDecision(…), id, createdAt }`
  unfoldable pub make_plan :
      IntakeDeps → Submission → PositionState → String → String → ExecutionPlan
  unfolding planner_deps
  make_plan deps submission position plan_id created_at =
      record (plan_decision submission.decision (planner_deps deps position) created_at) {
        id = plan_id;
      }

  -- Without orders: no more than a decision to go flat is fine.
  unfoldable pub without_orders : Submission → PositionState → DecisionIntakeResult
  without_orders submission position =
      if is_go_flat submission.decision.intent
      then nothing_done submission position
      else record (nothing_done submission position) {
        pre_execution_rejection =
            some (record { scope = planner; code = "no_orders_planned"; retryable = false });
      }

  module _ {S : Type 0} (calls : IntakeCalls S) (deps : IntakeDeps) (clock : Readings) where
    unfoldable pub after_safety :
        Submission
        → DecisionContext
        → PositionState
        → ExecutionPlan
        → IntakeTrackers
        → S
        → Result (Unit {0}) SafetyError
        → Run S
    unfolding gate_and_execute
    after_safety submission context position plan trackers s (ok u) =
        gate_and_execute calls deps clock submission context position plan trackers s
    after_safety submission context position plan trackers s (err e) = (
      s,
      trackers,
      mark_plan_failed plan.id ∷ [],
      returns (record (nothing_done submission position) {
        plan = some plan;
        pre_execution_rejection =
            some (record { scope = swap_token_safety; code = e.code; retryable = e.retryable });
      }),
    )

    -- 5b. The token guard, which only a purchase on a swap venue is put to.
    unfoldable pub guard_purchase :
        Bool
        → (S → SafetyRequest → S × Result (Unit {0}) SafetyError)
        → String
        → Submission
        → DecisionContext
        → PositionState
        → ExecutionPlan
        → IntakeTrackers
        → S
        → Run S
    unfolding after_safety safety_request gate_and_execute
    guard_purchase false check address submission context position plan trackers s =
        gate_and_execute calls deps clock submission context position plan trackers s
    guard_purchase true check address submission context position plan trackers s =
        let (s', answer) =
          check s (safety_request calls.to_upper_case deps submission plan context address) in
        after_safety submission context position plan trackers s' answer

    unfoldable pub guard_token :
        Option (S → SafetyRequest → S × Result (Unit {0}) SafetyError)
        → Option String
        → Submission
        → DecisionContext
        → PositionState
        → ExecutionPlan
        → IntakeTrackers
        → S
        → Run S
    unfolding guard_purchase gate_and_execute
    guard_token (some check) (some address) submission context position plan trackers s =
        guard_purchase
          (is_swap deps.venue_type
            && not (str_eq address "")
            && any (λ o. is_buy o.side) plan.orders)
          check address submission context position plan trackers s
    guard_token _ address submission context position plan trackers s =
        gate_and_execute calls deps clock submission context position plan trackers s

    -- 4. to 8., for a plan.
    unfoldable pub with_orders :
        List PlannedOrder
        → Submission
        → DecisionContext
        → PositionState
        → ExecutionPlan
        → IntakeTrackers
        → S
        → Run S
    unfolding without_orders guard_token
    with_orders [] submission context position plan trackers s =
        (s, trackers, [], returns (without_orders submission position))
    with_orders (o ∷ os) submission context position plan trackers s =
        prepend (persist_plan plan ∷ journal_plan plan plan_created ∷ []) (
          guard_token calls.check_swap_target deps.swap_base_token_address submission context
            position plan trackers s)

    unfoldable pub plan_and_execute :
        Submission → DecisionContext → PositionState → IntakeTrackers → S → Run S
    unfolding make_plan with_orders
    plan_and_execute submission context position trackers s =
        let (s', plan_id) = calls.plan_id s in
        let plan = make_plan deps submission position plan_id clock.created_at in
        with_orders plan.orders submission context position plan trackers s'

    unfoldable pub submit_decision_for_execution :
        Submission → DecisionContext → PositionState → IntakeTrackers → S → Run S
    unfolding normalize_context_hash plan_and_execute
    submit_decision_for_execution submission context position trackers s =
        let hash = calls.compute_decision_context_hash context in
        let supplied = normalize_context_hash submission.context_hash in
        let resolved = record submission { context_hash = some hash } in
        if is_mismatch supplied hash
        then (s, trackers, [], hash_mismatch hash (get_or supplied ""))
        else prepend
            (persist_decision resolved
              ∷ persist_decision_context resolved.decision.id hash context
              ∷ journal_decision resolved
              ∷ [])
            (plan_and_execute resolved context position trackers s)
