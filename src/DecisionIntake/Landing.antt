-- ===== src/DecisionIntake/Landing.antt =====
-- Where packages/engine/src/decision-intake.ts leaves the position.
use traderton.Prelude.{
  String, ◌≡◌, refl, ap, ◌∙◌, inl, inr, Bool, true, false, List, [], ◌∷◌, Option, none, some, arith,
}
use traderton.Decimal.{DecimalLib, Price, Quantity, decimal, lte}
use traderton.Decimal.Laws.{Exact}
use traderton.Result.{Result, ok, err}
use traderton.Order.{FillEvent}
use traderton.Position.{PositionState}
use traderton.Position.Exposure.{exposure, IsValid}
use traderton.Planner.{PlannedOrder, ExecutionPlan, is_swap}
use traderton.Planner.Orders.{destination, filled_exposure}
use traderton.RiskGate.{RiskError}
use traderton.Executors.{ExecutionResult}
use traderton.Executors.Filled.{after_fills, AreComplete, exposure-after_fills}
use traderton.Trackers.Accounting.{apply_fill_accounting}
use traderton.DecisionIntake.{
  SafetyError, SafetyRequest, DecisionContext, Submission, IntakeDeps, IntakeTrackers, IntakeCalls,
  Readings, ExecutorAnswer, answers, throws, times_out, persist_plan, journal_plan, plan_created,
  persist_decision, persist_decision_context, journal_decision,
}
use traderton.DecisionIntake.Hash.{normalize_context_hash}
use traderton.DecisionIntake.Booking.{book_fill, book_fills, settle}
use traderton.DecisionIntake.Destination.{make_plan-destination}
use traderton.DecisionIntake.Outcomes.{
  starts, starts-append, starts-settle, starts-book_fills, Answers, IsReady, Lands, prepend-Lands,
  without_orders-IsUnchanged,
}
use traderton.DecisionIntake.Execute.{Run, after_execution, after_gate, gate_and_execute}
use traderton.DecisionIntake.Submit.{
  make_plan, after_safety, guard_token, guard_purchase, with_orders, plan_and_execute, is_mismatch,
  submit_decision_for_execution,
}

module _ ⦃lib : DecimalLib⦄ where
  pub book_fills-position :
      {S : Type 0} (calls : IntakeCalls S) (deps : IntakeDeps) (clock : Readings)
      (submission : Submission) (trackers : IntakeTrackers) (p : PositionState)
      (fills : List FillEvent)
      → (book_fills calls deps clock submission trackers p fills).1 ≡ after_fills p fills
  unfolding book_fills book_fill apply_fill_accounting
  book_fills-position calls deps clock submission trackers p [] = refl
  book_fills-position calls deps clock submission trackers p (f ∷ fs) =
      book_fills-position calls deps clock submission (book_fill calls deps clock trackers p f).0 _
        fs

  -- An executor whose result, where it returns one, fills every order of the plan.
  abbrev pub FillsCompletely : {S : Type 0} → IntakeCalls S → Type 0
  FillsCompletely {S} calls =
      (s : S) (plan : ExecutionPlan) (price : Price) (r : ExecutionResult)
      → (calls.execute s plan price).1 ≡ answers (ok r)
      → AreComplete plan.orders r.fills

module _ ⦃lib : DecimalLib⦄ ⦃ex : Exact⦄ {S : Type 0} (calls : IntakeCalls S) (deps : IntakeDeps)
    (clock : Readings) (complete : FillsCompletely calls) (start : S) where
  module _ (submission : Submission) (context : DecisionContext) (position : PositionState)
      (plan : ExecutionPlan) (target : Quantity) (named : plan.id ≡ (calls.plan_id start).1)
      (aims : filled_exposure (exposure position) plan.orders ≡ target) where
    abbrev Target : Run S → Type 0
    Target = Lands calls start position target context.snapshot_price

    after_execution-Answers :
        (trackers : IntakeTrackers) (s : S) (answer : ExecutorAnswer)
        → ((r : ExecutionResult) → answer ≡ answers (ok r) → AreComplete plan.orders r.fills)
        → let run =
            after_execution calls deps clock submission context position plan trackers s answer in
          (run.0 ≡ s) × (starts run.2 ≡ 0) × Answers position target answer run.3
    unfolding after_execution
    after_execution-Answers trackers s (answers (ok r)) h =
        let (trackers', position', booked) =
          book_fills calls deps clock submission trackers position r.fills in
        (
          refl,
          omega (
            arith,
            starts-append booked (settle deps submission context plan.id position' r),
            starts-book_fills calls deps clock submission trackers position r.fills,
            starts-settle deps submission context plan.id position' r,
          ),
          (
            refl,
            ap exposure (book_fills-position calls deps clock submission trackers position r.fills)
                ∙ exposure-after_fills position plan.orders r.fills (h r refl)
                ∙ aims,
          ),
        )
    after_execution-Answers trackers s (answers (err e)) h =
        (refl, refl, (refl, refl, (refl, refl)))
    after_execution-Answers trackers s times_out h = (refl, refl, (refl, (refl, refl)))
    after_execution-Answers trackers s (throws e) h = (refl, refl, refl)

    after_gate-Lands :
        (trackers : IntakeTrackers) (s : S) (verdict : Result (Unit {0}) RiskError)
        → IsReady calls start s
        → Target (after_gate calls deps clock submission context position plan trackers s verdict)
    unfolding after_gate
    after_gate-Lands trackers s (err e) ready = inl (ready, refl, (refl, refl))
    after_gate-Lands trackers s (ok u) ready =
        let (s', answer) = calls.execute s plan context.snapshot_price in
        let (state, none_more, answered) =
          after_execution-Answers trackers s' answer (complete s plan context.snapshot_price) in
        inr (s, plan, ready, named, aims, state, omega (arith, none_more), answered)

    gate_and_execute-Lands :
        (trackers : IntakeTrackers) (s : S)
        → IsReady calls start s
        → Target (gate_and_execute calls deps clock submission context position plan trackers s)
    unfolding gate_and_execute
    gate_and_execute-Lands trackers s ready = after_gate-Lands _ s _ ready

    after_safety-Lands :
        (trackers : IntakeTrackers) (s : S) (verdict : Result (Unit {0}) SafetyError)
        → IsReady calls start s
        → Target (after_safety calls deps clock submission context position plan trackers s verdict)
    unfolding after_safety
    after_safety-Lands trackers s (err e) ready = inl (ready, refl, (refl, refl))
    after_safety-Lands trackers s (ok u) ready = gate_and_execute-Lands trackers s ready

    guard_purchase-Lands :
        (guarded : Bool) (check : S → SafetyRequest → S × Result (Unit {0}) SafetyError)
        (address : String) (trackers : IntakeTrackers)
        → calls.check_swap_target ≡ some check
        → Target (
            guard_purchase calls deps clock guarded check address submission context position plan
              trackers
              (calls.plan_id start).0)
    unfolding guard_purchase
    guard_purchase-Lands false check address trackers h =
        gate_and_execute-Lands trackers _ (inl refl)
    guard_purchase-Lands true check address trackers h =
        after_safety-Lands trackers _ _ (inr (check, _, h, refl))

    guard_token-Lands :
        (check : Option (S → SafetyRequest → S × Result (Unit {0}) SafetyError))
        (address : Option String) (trackers : IntakeTrackers)
        → calls.check_swap_target ≡ check
        → Target (
            guard_token calls deps clock check address submission context position plan trackers
              (calls.plan_id start).0)
    unfolding guard_token
    guard_token-Lands (some check) (some address) trackers h =
        guard_purchase-Lands _ check address trackers h
    guard_token-Lands (some check) none trackers h = gate_and_execute-Lands trackers _ (inl refl)
    guard_token-Lands none address trackers h = gate_and_execute-Lands trackers _ (inl refl)

    with_orders-Lands :
        (orders : List PlannedOrder) (trackers : IntakeTrackers)
        → Target (
            with_orders calls deps clock orders submission context position plan trackers
              (calls.plan_id start).0)
    unfolding with_orders
    with_orders-Lands [] trackers =
        inl (inl refl, refl, without_orders-IsUnchanged submission position)
    with_orders-Lands (o ∷ os) trackers =
        prepend-Lands calls start position target context.snapshot_price
          (persist_plan plan ∷ journal_plan plan plan_created ∷ [])
          (guard_token calls deps clock calls.check_swap_target deps.swap_base_token_address
            submission context position plan trackers (calls.plan_id start).0)
          refl (guard_token-Lands _ _ trackers refl)

  pub plan_and_execute-Lands :
      (submission : Submission) (context : DecisionContext) (position : PositionState)
      (trackers : IntakeTrackers)
      → IsValid position
      → lte (decimal 0) submission.decision.target_size ≡ true
      → Lands calls start position
          (destination submission.decision.intent
            (is_swap deps.venue_type)
            position.side
            position.size
            submission.decision.target_size)
          context.snapshot_price
          (plan_and_execute calls deps clock submission context position trackers start)
  unfolding plan_and_execute make_plan
  plan_and_execute-Lands submission context position trackers v t =
      let plan = make_plan deps submission position (calls.plan_id start).1 clock.created_at in
      with_orders-Lands submission context position plan _ refl
        (make_plan-destination deps submission position (calls.plan_id start).1 clock.created_at v
          t)
        plan.orders trackers

  pub matched-Lands :
      (submission : Submission) (context : DecisionContext) (position : PositionState)
      (trackers : IntakeTrackers)
      → IsValid position
      → lte (decimal 0) submission.decision.target_size ≡ true
      → is_mismatch
          (normalize_context_hash submission.context_hash)
          (calls.compute_decision_context_hash context)
        ≡ false
      → Lands calls start position
          (destination submission.decision.intent
            (is_swap deps.venue_type)
            position.side
            position.size
            submission.decision.target_size)
          context.snapshot_price
          (submit_decision_for_execution calls deps clock submission context position trackers
            start)
  unfolding submit_decision_for_execution
  matched-Lands submission context position trackers v t same =
      let hash = calls.compute_decision_context_hash context in
      let resolved = record submission { context_hash = some hash } in
      rw same (
        prepend-Lands calls start position _ context.snapshot_price
          (persist_decision resolved
            ∷ persist_decision_context resolved.decision.id hash context
            ∷ journal_decision resolved
            ∷ [])
          (plan_and_execute calls deps clock resolved context position trackers start) refl
          (plan_and_execute-Lands resolved context position trackers v t))
