-- ===== src/DecisionIntake/PaperTrading.antt =====
-- The intake of packages/engine/src/decision-intake.ts with the executor of paper-executor.ts.
use mathlib.Core.Path.{subst}
use traderton.Prelude.{String, ◌≡◌, ap, List, [], Option}
use traderton.Decimal.{DecimalLib, Price}
use traderton.Result.{ok}
use traderton.Order.{FillEvent}
use traderton.Planner.{ExecutionPlan}
use traderton.Executors.{IdGenerator, ExecutionResult, FeeSimulatorConfig}
use traderton.Executors.Paper.{execute}
use traderton.Executors.Filled.{AreComplete, simulate-AreComplete}
use traderton.DecisionIntake.{ExecutorAnswer, answers}

module _ ⦃lib : DecimalLib⦄ {S : Type 0} (id_gen : IdGenerator S)
    (config : Option FeeSimulatorConfig) (now : String) where
  unfoldable pub paper_execute : S → ExecutionPlan → Price → S × ExecutorAnswer
  unfolding execute
  paper_execute s plan current_price =
      let (s', r) = execute id_gen config s plan current_price now in (s', answers r)

  fills_in : ExecutorAnswer → List FillEvent
  fills_in (answers (ok r)) = r.fills
  fills_in _ = []

  -- A paper executor fills every order of a plan.
  pub paper_execute-AreComplete :
      (s : S) (plan : ExecutionPlan) (price : Price) (r : ExecutionResult)
      → (paper_execute s plan price).1 ≡ answers (ok r)
      → AreComplete plan.orders r.fills
  unfolding paper_execute fills_in execute
  paper_execute-AreComplete s plan price r h =
      subst (AreComplete plan.orders) (ap fills_in h)
        (simulate-AreComplete id_gen config s plan price now plan.orders)
