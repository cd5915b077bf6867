-- ===== src/DecisionIntake/Drawdown.antt =====
-- What the drawdown in percent means to packages/engine/src/decision-intake.ts, whose snapshot has
-- no peak equity.
use mathlib.Core.Path.{ap₂}
use traderton.Prelude.{◌≡◌, refl, ap, if◌then◌else◌, List, [], ◌∷◌, Option, none, some, arith}
use traderton.Decimal.{DecimalLib, Price}
use traderton.Decimal.Laws.{Exact}
use traderton.Decimal.Order.{compared_to_self}
use traderton.Position.{PositionState}
use traderton.Planner.{PlannedOrder, ExecutionPlan}
use traderton.RiskGate.{
  RiskLimits, RiskSnapshot, check_risk, check_account, check_drawdown_pct, check_orders,
  check_order, check_open_positions, unless_refused, to_result, is_risk_reducing, is_opening,
}
use traderton.DecisionIntake.{DecisionContext, IntakeDeps, IntakeTrackers, Readings}
use traderton.DecisionIntake.Snapshot.{risk_snapshot}

module _ ⦃lib : DecimalLib⦄ ⦃ex : Exact⦄ where
  check_drawdown_pct-no_peak :
      (pct equity : Option Price) → check_drawdown_pct pct equity none ≡ none
  unfolding check_drawdown_pct
  check_drawdown_pct-no_peak none equity = refl
  check_drawdown_pct-no_peak (some pct) none = refl
  check_drawdown_pct-no_peak (some pct) (some equity) = ground (arith, compared_to_self equity)

  check_orders-max_drawdown_pct :
      (l : RiskLimits) (s : RiskSnapshot) (pct : Option Price) (os : List PlannedOrder)
      → check_orders (record l { max_drawdown_pct = pct }) s os
        ≡ check_orders (record l { max_drawdown_pct = none }) s os
  unfolding check_orders check_order
  check_orders-max_drawdown_pct l s pct [] = refl
  check_orders-max_drawdown_pct l s pct (o ∷ os) =
      ap (unless_refused (check_order l s o)) (check_orders-max_drawdown_pct l s pct os)

  check_account-max_drawdown_pct :
      (l : RiskLimits) (s : RiskSnapshot) (pct : Option Price)
      → s.peak_equity ≡ none
      → check_account (record l { max_drawdown_pct = pct }) s
        ≡ check_account (record l { max_drawdown_pct = none }) s
  unfolding check_account
  check_account-max_drawdown_pct l s pct h =
      rw h (
        rw (check_drawdown_pct-no_peak pct s.equity, check_drawdown_pct-no_peak none s.equity) refl)

  -- The limit on the drawdown in percent does nothing: of any plan, under any account, the gate's
  -- verdict on the snapshot that the intake makes is the same with the limit as without it.
  pub check_risk-max_drawdown_pct :
      (deps : IntakeDeps) (trackers : IntakeTrackers) (position : PositionState)
      (context : DecisionContext) (clock : Readings) (plan : ExecutionPlan) (l : RiskLimits)
      (pct : Option Price)
      → let s = (risk_snapshot deps trackers position context clock).1 in
        check_risk plan (record l { max_drawdown_pct = pct }) s
        ≡ check_risk plan (record l { max_drawdown_pct = none }) s
  unfolding check_risk risk_snapshot
  check_risk-max_drawdown_pct deps trackers position context clock plan l pct =
      let s = (risk_snapshot deps trackers position context clock).1 in
      ap₂
        (λ account orders. to_result (
          unless_refused (if is_risk_reducing plan.action then none else account) (
            unless_refused
              (if is_opening plan.action
                then check_open_positions l.max_open_positions s.open_position_count
                else none)
              orders)))
        (check_account-max_drawdown_pct l s pct refl)
        (check_orders-max_drawdown_pct l s pct plan.orders)
