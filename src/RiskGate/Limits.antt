-- ===== src/RiskGate/Limits.antt =====
-- What packages/engine/src/risk-gate.ts accepts, as a list of conditions on the account and the
-- orders.
use traderton.Prelude.{
  ℕ, ◌≡◌, ◌↔◌, true, false, List, [], ◌∷◌, Option, none, some, All, arith, if◌then◌else◌,
}
use traderton.Decimal.{DecimalLib, Price, Quantity}
use traderton.Result.{ok}
use traderton.Planner.{PlannedOrder, ExecutionPlan}
use traderton.RiskGate.{
  RiskError, RiskLimits, RiskSnapshot, is_risk_reducing, is_opening, unless_refused, to_result,
  compute_resulting_size, check_drawdown, check_drawdown_pct, check_daily_loss, check_cooldown,
  check_open_positions, check_size, mark_for_notional, check_size_pct, check_notional, check_order,
  check_orders, check_account, check_risk,
}
use traderton.RiskGate.Conditions.{
  AtMost, Below, DailyLossIsBelow, DrawdownPctIsBelow, HasRoom, IsAccountSafe, IsAllowed, IsCooled,
  NotionalIsAtMost, SizePctIsAtMost,
}

unless_refused_iff :
    (a b : Option RiskError) → (unless_refused a b ≡ none) ↔ ((a ≡ none) × (b ≡ none))
unless_refused_iff a b = ground arith

module _ ⦃lib : DecimalLib⦄ where
  check_drawdown_iff :
      (limit : Option Price) (s : RiskSnapshot)
      → (check_drawdown limit s ≡ none) ↔ Below limit s.current_drawdown
  unfolding check_drawdown
  check_drawdown_iff none s = ground arith
  check_drawdown_iff (some limit) s = ground arith

  check_drawdown_pct_iff :
      (pct : Option Price) (equity peak : Option Price)
      → (check_drawdown_pct pct equity peak ≡ none) ↔ DrawdownPctIsBelow pct equity peak
  unfolding check_drawdown_pct
  check_drawdown_pct_iff none equity peak = ground arith
  check_drawdown_pct_iff (some pct) none peak = ground arith
  check_drawdown_pct_iff (some pct) (some equity) peak = ground arith

  check_daily_loss_iff :
      (pct : Option Price) (loss equity : Option Price)
      → (check_daily_loss pct loss equity ≡ none) ↔ DailyLossIsBelow pct loss equity
  unfolding check_daily_loss
  check_daily_loss_iff none loss equity = ground arith
  check_daily_loss_iff (some pct) none equity = ground arith
  check_daily_loss_iff (some pct) (some loss) none = ground arith
  check_daily_loss_iff (some pct) (some loss) (some equity) = ground arith

  check_cooldown_iff :
      (cooldown last now : Option ℕ)
      → (check_cooldown cooldown last now ≡ none) ↔ IsCooled cooldown last now
  unfolding check_cooldown
  check_cooldown_iff none last now = ground arith
  check_cooldown_iff (some cooldown) none now = ground arith
  check_cooldown_iff (some cooldown) (some last) none = ground arith
  check_cooldown_iff (some cooldown) (some last) (some now) = ground arith

  check_open_positions_iff :
      (limit : Option ℕ) (count : ℕ)
      → (check_open_positions limit count ≡ none) ↔ HasRoom limit count
  unfolding check_open_positions
  check_open_positions_iff none count = ground arith
  check_open_positions_iff (some limit) count = ground arith

  check_size_iff :
      (limit : Option Quantity) (size : Quantity)
      → (check_size limit size ≡ none) ↔ AtMost limit size
  unfolding check_size
  check_size_iff none size = ground arith
  check_size_iff (some limit) size = ground arith

  check_size_pct_iff :
      (pct : Option Price) (equity mark : Option Price) (size : Quantity)
      → (check_size_pct pct equity mark size ≡ none) ↔ SizePctIsAtMost pct equity mark size
  unfolding check_size_pct
  check_size_pct_iff none equity mark size = ground arith
  check_size_pct_iff (some pct) none mark size = ground arith
  check_size_pct_iff (some pct) (some equity) none size = ground arith
  check_size_pct_iff (some pct) (some equity) (some mark) size = ground arith

  check_notional_iff :
      (limit mark : Option Price) (quantity : Quantity)
      → (check_notional limit mark quantity ≡ none) ↔ NotionalIsAtMost limit mark quantity
  unfolding check_notional
  check_notional_iff none mark quantity = ground arith
  check_notional_iff (some limit) none quantity = ground arith
  check_notional_iff (some limit) (some mark) quantity = ground arith

  check_order_iff :
      (l : RiskLimits) (s : RiskSnapshot) (o : PlannedOrder)
      → (check_order l s o ≡ none) ↔ IsAllowed l s o
  unfolding check_order
  check_order_iff l s o =
      let size = compute_resulting_size s.current_position o.side o.quantity in
      let mark = mark_for_notional s.reference_mark o.price in
      ground (
        arith,
        unless_refused_iff (check_size l.max_position_size size) (
            unless_refused (check_size_pct l.max_position_size_pct s.equity mark size)
              (check_notional l.max_order_notional mark o.quantity)),
        unless_refused_iff (check_size_pct l.max_position_size_pct s.equity mark size)
            (check_notional l.max_order_notional mark o.quantity),
        check_size_iff l.max_position_size size,
        check_size_pct_iff l.max_position_size_pct s.equity mark size,
        check_notional_iff l.max_order_notional mark o.quantity,
      )

  pub check_orders_iff :
      (l : RiskLimits) (s : RiskSnapshot) (os : List PlannedOrder)
      → (check_orders l s os ≡ none) ↔ All (IsAllowed l s) os
  unfolding check_orders
  check_orders_iff l s [] = ground arith
  check_orders_iff l s (o ∷ os) =
      let (to, from) = unless_refused_iff (check_order l s o) (check_orders l s os) in
      let (one, one_back) = check_order_iff l s o in
      let (more, more_back) = check_orders_iff l s os in
      (λ h. (one (to h).0, more (to h).1), λ a. from (one_back a.0, more_back a.1))

  check_account_iff :
      (l : RiskLimits) (s : RiskSnapshot) → (check_account l s ≡ none) ↔ IsAccountSafe l s
  unfolding check_account
  check_account_iff l s =
      let pct = check_drawdown_pct l.max_drawdown_pct s.equity s.peak_equity in
      let daily = check_daily_loss l.daily_max_loss_pct s.daily_loss s.equity in
      let cooldown = check_cooldown l.stop_loss_cooldown_ms s.last_stop_loss_exit_ms s.now_ms in
      let (to, from) =
        unless_refused_iff (check_drawdown l.max_drawdown s)
          (unless_refused pct (unless_refused daily cooldown)) in
      let (to_pct, from_pct) = unless_refused_iff pct (unless_refused daily cooldown) in
      let (to_last, from_last) = unless_refused_iff daily cooldown in
      let (a, a_back) = check_drawdown_iff l.max_drawdown s in
      let (b, b_back) = check_drawdown_pct_iff l.max_drawdown_pct s.equity s.peak_equity in
      let (c, c_back) = check_daily_loss_iff l.daily_max_loss_pct s.daily_loss s.equity in
      let (e, e_back) =
        check_cooldown_iff l.stop_loss_cooldown_ms s.last_stop_loss_exit_ms s.now_ms in
      (
        λ h.
            let (p, q) = to h in
            let (r, t) = to_pct q in let (u, v) = to_last t in (a p, b r, c u, e v),
        λ h. from (a_back h.0, from_pct (b_back h.1, from_last (c_back h.2, e_back h.3))),
      )

  to_result_iff : (r : Option RiskError) → (to_result r ≡ ok tt) ↔ (r ≡ none)
  to_result_iff r = ground arith

  -- A plan passes the gate exactly when the account is within its limits, or the plan only closes
  -- or reduces; there is room for one more position, or the plan opens none; and each order, taken
  -- alone from the current position, is within the limits on the resulting size, on its value in
  -- percent of the equity and on the value of the order, valued at a price that is there.
  pub check_risk_iff :
      (plan : ExecutionPlan) (l : RiskLimits) (s : RiskSnapshot)
      → (check_risk plan l s ≡ ok tt) ↔ (
          (is_risk_reducing plan.action ≡ false → IsAccountSafe l s)
          × (is_opening plan.action ≡ true → HasRoom l.max_open_positions s.open_position_count)
          × All (IsAllowed l s) plan.orders)
  unfolding check_risk
  check_risk_iff plan l s =
      let account = if is_risk_reducing plan.action then none else check_account l s in
      let room =
        if is_opening plan.action
        then check_open_positions l.max_open_positions s.open_position_count
        else none in
      let orders = check_orders l s plan.orders in
      let (result, result_back) =
        to_result_iff (unless_refused account (unless_refused room orders)) in
      let (to, from) = unless_refused_iff account (unless_refused room orders) in
      let (to_rest, from_rest) = unless_refused_iff room orders in
      let (a, a_back) = check_account_iff l s in
      let (b, b_back) = check_open_positions_iff l.max_open_positions s.open_position_count in
      let (c, c_back) = check_orders_iff l s plan.orders in
      (
        λ h.
            let (p, q) = to (result h) in
            let (r, t) = to_rest q in (λ e. a (ground arith), λ e. b (ground arith), c t),
        λ h. result_back (from (ground arith, from_rest (ground arith, c_back h.2))),
      )
