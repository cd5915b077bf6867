-- ===== src/Tests/Positions.antt =====
-- Runs of packages/engine/src/position-tracker.ts, risk-gate.ts, planner.ts and the trackers.
use traderton.Prelude.{◌≡◌, refl, ◌↔◌, ℕ, true, false, [], ◌∷◌, ◌++◌, none, some, All}
use traderton.Prelude.Int.{pos, ◌+ℤ◌, ◌-ℤ◌, ◌*ℤ◌}
use traderton.Decimal.{plus, mul, div, neg, lte}
use traderton.Decimal.Integers.{whole_numbers, whole_numbers-Exact}
use traderton.Result.{ok}
use traderton.Order.{buy, sell, market}
use traderton.Position.{long, apply_fill, reversed}
use traderton.Position.Exposure.{exposure, signed_fill, exposure-apply_fill}
use traderton.Position.Value.{value, value-apply_fill}
use traderton.Planner.{
  VenuePosition, PlannerDeps, go_short, orderbook_venue, plan_decision, PlannedOrder, plan_intent,
  plan_go_short, route, resolve_order_type,
}
use traderton.Planner.Orders.{filled_exposure, destination}
use traderton.Planner.Targets.{plan_decision-destination}
use traderton.RiskGate.{
  RiskLimits, RiskSnapshot, check_risk, is_risk_reducing, is_opening, compute_resulting_size,
  check_account, check_drawdown, check_drawdown_pct, check_daily_loss, check_cooldown,
  check_open_positions, check_orders, check_order, check_size, check_size_pct, check_notional,
  mark_for_notional,
}
use traderton.RiskGate.Conditions.{IsAccountSafe, HasRoom, IsAllowed}
use traderton.RiskGate.Limits.{check_risk_iff}
use traderton.RiskGate.Size.{accepted_order_size}
use traderton.Tests.Samples.{position, fill, short_ten}

-- Long 5, a sale of 8: short 3.
reversal : (apply_fill (position long 5 10) (fill sell 8 12)).size ≡ pos 3
unfolding apply_fill reversed ◌-ℤ◌
reversal = refl

exposure-apply_fill_example :
    exposure (apply_fill (position long 5 10) (fill sell 8 12))
    ≡ plus (exposure (position long 5 10)) (signed_fill (fill sell 8 12))
exposure-apply_fill_example = exposure-apply_fill (position long 5 10) (fill sell 8 12)

-- (10 * 1 + 14 * 3) / 4 = 13 exactly.
exact_entry :
    mul
      (div (plus (mul (pos 10) (pos 1)) (mul (pos 14) (pos 3))) (plus (pos 1) (pos 3)))
      (plus (pos 1) (pos 3))
    ≡ plus (mul (pos 10) (pos 1)) (mul (pos 14) (pos 3))
unfolding ◌+ℤ◌ ◌*ℤ◌
exact_entry = refl

value-apply_fill_example :
    value (apply_fill (position long 1 10) (fill buy 3 14)) (pos 14)
    ≡ value (position long 1 10) (pos 14)
value-apply_fill_example = value-apply_fill (position long 1 10) (fill buy 3 14) (λ _. exact_entry)

abbrev held : VenuePosition
held = record { symbol = "BTC"; side = long; size = pos 5; entry_price = pos 10 }

abbrev deps : PlannerDeps
deps = record {
  current_position = some held;
  venue = "venue";
  symbol = "BTC";
  venue_type = some orderbook_venue;
  swap_assets = none;
}

plan_decision-destination_example :
    filled_exposure (pos 5) ((plan_decision short_ten deps "t").orders)
    ≡ destination go_short false long (pos 5) (pos 10)
plan_decision-destination_example = plan_decision-destination short_ten deps "t" refl refl

abbrev limits : ℕ → RiskLimits
limits size = record {
  max_position_size = some (pos size);
  max_open_positions = none;
  max_drawdown = none;
  max_order_notional = none;
  max_position_size_pct = none;
  daily_max_loss_pct = none;
  stop_loss_cooldown_ms = none;
  max_drawdown_pct = none;
}

abbrev snapshot : RiskSnapshot
snapshot = record {
  current_position = some (position long 5 10);
  open_position_count = 1;
  current_drawdown = pos 0;
  equity = none;
  peak_equity = none;
  daily_loss = none;
  last_stop_loss_exit_ms = none;
  now_ms = none;
  reference_mark = none;
}

-- Each order is checked from the current position: 5 to 0, and 5 to 5, though the two together go
-- to 10.
reversal_passes : check_risk (plan_decision short_ten deps "t") (limits 5) snapshot ≡ ok tt
unfolding plan_decision plan_intent plan_go_short route resolve_order_type check_risk check_account
    check_drawdown check_drawdown_pct check_daily_loss check_cooldown check_open_positions
    check_orders check_order check_size check_size_pct check_notional mark_for_notional
    compute_resulting_size ◌-ℤ◌
reversal_passes = refl

reversal_ends_at_ten :
    filled_exposure (pos 5) ((plan_decision short_ten deps "t").orders) ≡ neg (pos 10)
reversal_ends_at_ten = plan_decision-destination short_ten deps "t" refl refl

check_risk_iff_example :
    (check_risk (plan_decision short_ten deps "t") (limits 5) snapshot ≡ ok tt) ↔ (
      (is_risk_reducing (plan_decision short_ten deps "t").action ≡ false
        → IsAccountSafe (limits 5) snapshot)
      × (is_opening (plan_decision short_ten deps "t").action ≡ true → HasRoom none 1)
      × All (IsAllowed (limits 5) snapshot) ((plan_decision short_ten deps "t").orders))
check_risk_iff_example = check_risk_iff (plan_decision short_ten deps "t") (limits 5) snapshot

abbrev sale : ℕ → PlannedOrder
sale n = record {
  side = sell;
  type = market;
  quantity = pos n;
  price = none;
  time_in_force = none;
  post_only = none;
  reduce_only = none;
  swap_params = none;
}

two_sales : (plan_decision short_ten deps "t").orders ≡ (sale 5 ∷ []) ++ (sale 10 ∷ [])
unfolding plan_decision plan_intent plan_go_short route resolve_order_type
two_sales = refl

accepted_order_size_example :
    lte (apply_fill (position long 5 10) (fill sell 10 12)).size (pos 5) ≡ true
accepted_order_size_example =
    accepted_order_size "venue" "BTC" (plan_decision short_ten deps "t") (limits 5) snapshot (pos 5)
      (sale 5 ∷ []) [] (sale 10) (fill sell 10 12) reversal_passes refl two_sales refl refl
