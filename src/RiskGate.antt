-- ===== src/RiskGate.antt =====
-- packages/engine/src/risk-gate.ts: what a plan may do. A percentage is the decimal that it
-- denotes, times and counts are whole numbers; an error is its code, and the message and the context
-- that print the compared values are left out.
pub mod Conditions
pub mod Limits
pub mod Size
use traderton.Prelude.{
  ℕ, ◌+◌, Bool, true, false, ◌&&◌, ◌||◌, not, List, [], ◌∷◌, Option, none, some, if◌then◌else◌, ltb,
  leb, get_or,
}
use traderton.Decimal.{
  DecimalLib, Price, Quantity, decimal, plus, minus, mul, div, abs, gt, gte, lt,
}
use traderton.Result.{Result, ok, err}
use traderton.Order.{OrderSide}
use traderton.Position.{PositionState, is_flat, is_long, is_short, is_buy}
use traderton.Planner.{
  PlanAction, close, reduce, open_long, open_short, PlannedOrder, ExecutionPlan,
}

pub data RiskError : Type 0 where
  max_drawdown_exceeded max_drawdown_pct_exceeded daily_max_loss_exceeded : RiskError
  stop_loss_cooldown max_open_positions_exceeded max_position_size_exceeded : RiskError
  no_mark_for_notional max_position_size_pct_exceeded max_order_notional_exceeded : RiskError

abbrev pub is_risk_reducing : PlanAction → Bool
is_risk_reducing close = true
is_risk_reducing reduce = true
is_risk_reducing _ = false

abbrev pub is_opening : PlanAction → Bool
is_opening open_long = true
is_opening open_short = true
is_opening _ = false

-- An early return of an error, or what follows.
abbrev pub unless_refused : Option RiskError → Option RiskError → Option RiskError
unless_refused none rest = rest
unless_refused (some e) rest = some e

module _ ⦃lib : DecimalLib⦄ where
  pub record RiskLimits : Type 0 where
    pub max_position_size : Option Quantity
    pub max_open_positions : Option ℕ
    pub max_drawdown : Option Price
    pub max_order_notional : Option Price
    pub max_position_size_pct : Option Price
    pub daily_max_loss_pct : Option Price
    pub stop_loss_cooldown_ms : Option ℕ
    pub max_drawdown_pct : Option Price

  pub record RiskSnapshot : Type 0 where
    pub current_position : Option PositionState
    pub open_position_count : ℕ
    pub current_drawdown : Price
    pub equity : Option Price
    pub peak_equity : Option Price
    pub daily_loss : Option Price
    pub last_stop_loss_exit_ms : Option ℕ
    pub now_ms : Option ℕ
    pub reference_mark : Option Price

  unfoldable pub compute_resulting_size : Option PositionState → OrderSide → Quantity → Quantity
  compute_resulting_size none side quantity = quantity
  compute_resulting_size (some p) side quantity =
      if is_flat p.side
      then quantity
      else if (is_long p.side && is_buy side) || (is_short p.side && not (is_buy side))
      then plus p.size quantity
      else abs (minus p.size quantity)

  -- 1. The absolute drawdown.
  unfoldable pub check_drawdown : Option Price → RiskSnapshot → Option RiskError
  check_drawdown none s = none
  check_drawdown (some limit) s =
      if gte s.current_drawdown limit then some max_drawdown_exceeded else none

  -- 1a. The drawdown from the peak in percent. A peak of 0 is divided by, as in the source.
  unfoldable pub check_drawdown_pct : Option Price → Option Price → Option Price → Option RiskError
  check_drawdown_pct (some pct) (some equity) peak_equity =
      let peak = get_or peak_equity equity in
      if gt pct (decimal 0)
        && lt equity peak
        && gte (mul (div (minus peak equity) peak) (decimal 100)) pct
      then some max_drawdown_pct_exceeded
      else none
  check_drawdown_pct (some pct) none peak_equity = none
  check_drawdown_pct none equity peak_equity = none

  -- 1b. The loss of the rolling day; 0 switches the check off.
  unfoldable pub check_daily_loss : Option Price → Option Price → Option Price → Option RiskError
  check_daily_loss (some pct) (some daily_loss) (some equity) =
      if gt pct (decimal 0) && gte daily_loss (div (mul equity pct) (decimal 100))
      then some daily_max_loss_exceeded
      else none
  check_daily_loss (some pct) (some daily_loss) none = none
  check_daily_loss (some pct) none equity = none
  check_daily_loss none daily_loss equity = none

  -- 1c. `now - last < cooldown` on signed numbers.
  unfoldable pub check_cooldown : Option ℕ → Option ℕ → Option ℕ → Option RiskError
  check_cooldown (some cooldown) (some last) (some now) =
      if ltb 0 cooldown && ltb now (last + cooldown) then some stop_loss_cooldown else none
  check_cooldown (some cooldown) (some last) none = none
  check_cooldown (some cooldown) none now = none
  check_cooldown none last now = none

  -- 2. The number of open positions.
  unfoldable pub check_open_positions : Option ℕ → ℕ → Option RiskError
  check_open_positions none count = none
  check_open_positions (some limit) count =
      if leb limit count then some max_open_positions_exceeded else none

  -- 3. The size that the order leaves.
  unfoldable pub check_size : Option Quantity → Quantity → Option RiskError
  check_size none size = none
  check_size (some limit) size = if gt size limit then some max_position_size_exceeded else none

  -- The worse of the reference mark and the order's price.
  unfoldable pub mark_for_notional : Option Price → Option Price → Option Price
  mark_for_notional (some mark) (some price) = some (if gt mark price then mark else price)
  mark_for_notional (some mark) none = some mark
  mark_for_notional none price = price

  -- 3b. The notional of that size against a part of the equity.
  unfoldable pub check_size_pct :
      Option Price → Option Price → Option Price → Quantity → Option RiskError
  check_size_pct (some pct) (some equity) none size = some no_mark_for_notional
  check_size_pct (some pct) (some equity) (some mark) size =
      if gt (mul size mark) (div (mul equity pct) (decimal 100))
      then some max_position_size_pct_exceeded
      else none
  check_size_pct (some pct) none mark size = none
  check_size_pct none equity mark size = none

  -- 4. The notional of the order.
  unfoldable pub check_notional : Option Price → Option Price → Quantity → Option RiskError
  check_notional none mark quantity = none
  check_notional (some limit) none quantity = some no_mark_for_notional
  check_notional (some limit) (some mark) quantity =
      if gt (mul quantity mark) limit then some max_order_notional_exceeded else none

  -- One turn of the loop over the orders.
  unfoldable pub check_order : RiskLimits → RiskSnapshot → PlannedOrder → Option RiskError
  check_order l s o =
      let size = compute_resulting_size s.current_position o.side o.quantity in
      let mark = mark_for_notional s.reference_mark o.price in
      unless_refused (check_size l.max_position_size size) (
        unless_refused (check_size_pct l.max_position_size_pct s.equity mark size)
          (check_notional l.max_order_notional mark o.quantity))

  unfoldable pub check_orders : RiskLimits → RiskSnapshot → List PlannedOrder → Option RiskError
  check_orders l s [] = none
  check_orders l s (o ∷ os) = unless_refused (check_order l s o) (check_orders l s os)

  -- The checks that a plan which only closes or reduces is spared.
  unfoldable pub check_account : RiskLimits → RiskSnapshot → Option RiskError
  check_account l s = unless_refused (check_drawdown l.max_drawdown s) (
      unless_refused (check_drawdown_pct l.max_drawdown_pct s.equity s.peak_equity) (
        unless_refused (check_daily_loss l.daily_max_loss_pct s.daily_loss s.equity)
          (check_cooldown l.stop_loss_cooldown_ms s.last_stop_loss_exit_ms s.now_ms)))

  abbrev pub to_result : Option RiskError → Result (Unit {0}) RiskError
  to_result none = ok tt
  to_result (some e) = err e

  unfoldable pub check_risk :
      ExecutionPlan → RiskLimits → RiskSnapshot → Result (Unit {0}) RiskError
  check_risk plan l s = to_result (
      unless_refused (if is_risk_reducing plan.action then none else check_account l s) (
        unless_refused
          (if is_opening plan.action
            then check_open_positions l.max_open_positions s.open_position_count
            else none)
          (check_orders l s plan.orders)))
