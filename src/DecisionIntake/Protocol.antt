-- ===== src/DecisionIntake/Protocol.antt =====
-- The life of a plan in the calls that packages/engine/src/decision-intake.ts makes.
use traderton.Prelude.{String, str_eq, ◌≡◌, Bool, true, false, List, [], ◌∷◌, Option, none, some}
use traderton.Decimal.{DecimalLib}
use traderton.Result.{Result}
use traderton.Planner.{ExecutionPlan, PlanStatus, completed, failed}
use traderton.Executors.{ExecutionResult}
use traderton.DecisionIntake.{
  IntakeDeps, IntakeCalls, Readings, Effect, persist_plan, mark_plan_executing, mark_plan_completed,
  mark_plan_failed, starts_executor, IntakeOutcome, returns, hash_mismatch, rethrows,
}
use traderton.DecisionIntake.Execute.{Run}

-- What is known of a plan outside: nothing, that it is stored, that it is marked as executing, that
-- the executor has it, or how it ended.
pub data PlanStage : Type 0 where
  unstored stored marked launched ended : PlanStage

module _ ⦃lib : DecimalLib⦄ where
  -- A stage that a call about a plan leads to, if it is the plan of the identifier.
  abbrev of_plan : Bool → PlanStage → Option PlanStage
  of_plan true stage = some stage
  of_plan false stage = none

  -- The stage of the plan of an identifier that a call leads to, or `none` for a call that is out of
  -- order or about another plan.
  abbrev pub advance : String → PlanStage → Effect → Option PlanStage
  advance id unstored (persist_plan plan) = of_plan (str_eq plan.id id) stored
  advance id stored (mark_plan_executing other) = of_plan (str_eq other id) marked
  advance id stored (mark_plan_failed other) = of_plan (str_eq other id) ended
  advance id marked (starts_executor plan price) = of_plan (str_eq plan.id id) launched
  advance id launched (mark_plan_completed other) = of_plan (str_eq other id) ended
  advance id launched (mark_plan_failed other) = of_plan (str_eq other id) ended
  advance id stage (persist_plan plan) = none
  advance id stage (mark_plan_executing other) = none
  advance id stage (mark_plan_completed other) = none
  advance id stage (mark_plan_failed other) = none
  advance id stage (starts_executor plan price) = none
  advance id stage effect = some stage

  unfoldable pub walk : String → PlanStage → List Effect → Option PlanStage
  walk id stage [] = some stage
  walk id stage (e ∷ es) = elim (advance id stage e) [ none ↦ none | some next ↦ walk id next es ]

  abbrev is_final : PlanStatus → Bool
  is_final completed = true
  is_final failed = true
  is_final _ = false

  -- Where an outcome leaves its plan.
  abbrev executed_stage : ExecutionPlan → Option ExecutionResult → PlanStage
  executed_stage plan none = ended
  executed_stage plan (some r) = elim (is_final plan.status) [ true ↦ ended | false ↦ launched ]

  abbrev plan_stage : Option ExecutionPlan → Option ExecutionResult → PlanStage
  plan_stage none result = unstored
  plan_stage (some plan) result = executed_stage plan result

  abbrev pub stage_after : IntakeOutcome → PlanStage
  stage_after (returns r) = plan_stage r.plan r.execution_result
  stage_after (hash_mismatch expected supplied) = unstored
  stage_after (rethrows e) = launched

  module _ {S : Type 0} (calls : IntakeCalls S) (deps : IntakeDeps) (clock : Readings) where
    abbrev Walks : String → PlanStage → Run S → Type 0
    Walks id stage run = walk id stage run.2 ≡ some (stage_after run.3)
