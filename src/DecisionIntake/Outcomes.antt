-- ===== src/DecisionIntake/Outcomes.antt =====
-- What packages/engine/src/decision-intake.ts calls, and what it makes of the answers.
use traderton.Prelude.{
  ℕ, ◌+◌, ◌++◌, String, ◌≡◌, refl, ◌⊎◌, inl, inr, true, List, [], ◌∷◌, none, some, arith,
}
use traderton.Decimal.{DecimalLib, Price, Quantity}
use traderton.Result.{Result, ok, err}
use traderton.Order.{FillEvent, ManagedOrder}
use traderton.Position.{PositionState}
use traderton.Position.Exposure.{exposure}
use traderton.Planner.{ExecutionPlan, PlanStatus}
use traderton.Planner.Orders.{filled_exposure}
use traderton.Executors.{ExecutionResult}
use traderton.DecisionIntake.{
  SafetyError, SafetyRequest, DecisionContext, Submission, IntakeDeps, IntakeTrackers, IntakeCalls,
  Readings, ExecutorAnswer, answers, throws, times_out, IntakeOutcome, returns, hash_mismatch,
  rethrows, Effect, starts_executor, DecisionIntakeResult,
}
use traderton.DecisionIntake.Booking.{
  book_fill, book_fills, persist_orders, mark_completed, mark_failed, settle,
}
use traderton.DecisionIntake.Execute.{Run, prepend}
use traderton.DecisionIntake.Submit.{without_orders}

module _ ⦃lib : DecimalLib⦄ where
  -- How often the executor is started.
  abbrev is_start : Effect → ℕ
  is_start (starts_executor plan price) = 1
  is_start effect = 0

  abbrev pub starts : List Effect → ℕ
  starts [] = 0
  starts (e ∷ es) = is_start e + starts es

  pub starts-append : (xs ys : List Effect) → starts (xs ++ ys) ≡ starts xs + starts ys
  starts-append [] ys = omega arith
  starts-append (x ∷ xs) ys = omega (arith, starts-append xs ys)

  starts-persist_orders :
      (submission : Submission) (orders : List ManagedOrder)
      → starts (persist_orders submission orders) ≡ 0
  unfolding persist_orders
  starts-persist_orders submission [] = refl
  starts-persist_orders submission (o ∷ os) = omega (arith, starts-persist_orders submission os)

  starts-mark_completed :
      (id : String) (plan : ExecutionPlan) (status : PlanStatus)
      → starts (mark_completed id plan status) ≡ 0
  unfolding mark_completed
  starts-mark_completed id plan status = ground arith

  starts-mark_failed :
      (id : String) (plan : ExecutionPlan) (status : PlanStatus)
      → starts (mark_failed id plan status) ≡ 0
  unfolding mark_failed
  starts-mark_failed id plan status = ground arith

  pub starts-settle :
      (deps : IntakeDeps) (submission : Submission) (context : DecisionContext) (id : String)
      (position : PositionState) (r : ExecutionResult)
      → starts (settle deps submission context id position r) ≡ 0
  unfolding settle
  starts-settle deps submission context id position r =
      let orders = persist_orders submission r.orders in
      omega (
        arith,
        starts-append (mark_completed id r.plan r.plan.status)
            (orders ++ mark_failed id r.plan r.plan.status),
        starts-append orders (mark_failed id r.plan r.plan.status),
        starts-mark_completed id r.plan r.plan.status,
        starts-persist_orders submission r.orders,
        starts-mark_failed id r.plan r.plan.status,
      )

  pub starts-book_fills :
      {S : Type 0} (calls : IntakeCalls S) (deps : IntakeDeps) (clock : Readings)
      (submission : Submission) (trackers : IntakeTrackers) (p : PositionState)
      (fills : List FillEvent)
      → starts (book_fills calls deps clock submission trackers p fills).2 ≡ 0
  unfolding book_fills
  starts-book_fills calls deps clock submission trackers p [] = refl
  starts-book_fills calls deps clock submission trackers p (f ∷ fs) =
      let (trackers', r) = book_fill calls deps clock trackers p f in
      omega (arith, starts-book_fills calls deps clock submission trackers' r.position fs)

  -- No execution, and the position as it was.
  abbrev pub IsUnchanged : PositionState → DecisionIntakeResult → Type 0
  IsUnchanged position r = (r.execution_result ≡ none) × (r.position ≡ position)

  -- What the answer of the executor makes of a position: with a result the exposure is the target,
  -- an error or the end of its time is a failure that leaves the position, and what it throws is
  -- thrown on.
  abbrev pub Answers : PositionState → Quantity → ExecutorAnswer → IntakeOutcome → Type 0
  Answers position target (answers (ok e)) (returns r) =
      (r.execution_result ≡ some e) × (exposure r.position ≡ target)
  Answers position target (answers (err x)) (returns r) =
      (r.execution_failed ≡ true) × (r.execution_error ≡ some x) × IsUnchanged position r
  Answers position target times_out (returns r) =
      (r.execution_failed ≡ true) × IsUnchanged position r
  Answers position target (throws x) (rethrows y) = y ≡ x
  Answers position target answer outcome = ⊥

  module _ {S : Type 0} (calls : IntakeCalls S) (s : S) where
    -- The state once the plan has its identifier, and the token guard was asked once at most.
    abbrev pub IsReady : S → Type 0
    IsReady ready =
        (ready ≡ (calls.plan_id s).0)
        ⊎ ((check : S → SafetyRequest → S × Result (Unit {0}) SafetyError)
            × (request : SafetyRequest) × (calls.check_swap_target ≡ some check)
            × (ready ≡ (check (calls.plan_id s).0 request).0))

    -- The executor is not called.
    abbrev pub Stays : PositionState → Run S → Type 0
    Stays position (s', trackers, effects, returns r) =
        IsReady s' × (starts effects ≡ 0) × IsUnchanged position r
    Stays position (s', trackers, effects, outcome) = ⊥

    -- The executor is called once, as the last call, with a plan of the new identifier whose orders
    -- make the target.
    abbrev pub Executes : PositionState → Quantity → Price → Run S → Type 0
    Executes position target price (s', trackers, effects, outcome) =
        (ready : S) × (plan : ExecutionPlan) × IsReady ready
        × (plan.id ≡ (calls.plan_id s).1)
        × (filled_exposure (exposure position) plan.orders ≡ target)
        × (s' ≡ (calls.execute ready plan price).0)
        × (starts effects ≡ 1)
        × Answers position target (calls.execute ready plan price).1 outcome

    abbrev pub Lands : PositionState → Quantity → Price → Run S → Type 0
    Lands position target price run = Stays position run ⊎ Executes position target price run

    -- A mismatch of the hashes, where nothing is called.
    abbrev pub Refuses : Run S → Type 0
    Refuses (s', trackers, effects, outcome) =
        (expected : String) × (supplied : String) × (outcome ≡ hash_mismatch expected supplied)
        × (s' ≡ s)
        × (effects ≡ [])

    prepend-Stays :
        (position : PositionState) (es : List Effect) (run : Run S)
        → starts es ≡ 0
        → Stays position run
        → Stays position (prepend es run)
    prepend-Stays position es (s', trackers, effects, returns r) h stays =
        (stays.0, omega (arith, starts-append es effects, stays.1), stays.2)
    prepend-Stays position es (s', trackers, effects, hash_mismatch x y) h stays = stays
    prepend-Stays position es (s', trackers, effects, rethrows e) h stays = stays

    pub prepend-Lands :
        (position : PositionState) (target : Quantity) (price : Price) (es : List Effect)
        (run : Run S)
        → starts es ≡ 0
        → Lands position target price run
        → Lands position target price (prepend es run)
    prepend-Lands position target price es run h (inl stays) =
        inl (prepend-Stays position es run h stays)
    prepend-Lands position target price es run h
          (inr (ready, plan, is_ready, named, aims, state, once, answered)) =
        inr (
          ready,
          plan,
          is_ready,
          named,
          aims,
          state,
          omega (arith, starts-append es run.2),
          answered,
        )

  pub without_orders-IsUnchanged :
      (submission : Submission) (position : PositionState)
      → IsUnchanged position (without_orders submission position)
  unfolding without_orders
  without_orders-IsUnchanged submission position = ground arith
