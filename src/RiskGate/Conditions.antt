-- ===== src/RiskGate/Conditions.antt =====
-- The conditions on an account and on an order that packages/engine/src/risk-gate.ts stands for.
use traderton.Prelude.{ℕ, ◌+◌, ◌<◌, ◌≤◌, ◌≡◌, true, Option, none, some, get_or}
use traderton.Decimal.{DecimalLib, Price, Quantity, decimal, minus, mul, div, lt, lte, gt}
use traderton.Planner.{PlannedOrder}
use traderton.RiskGate.{RiskLimits, RiskSnapshot, compute_resulting_size, mark_for_notional}

module _ ⦃lib : DecimalLib⦄ where
  -- At most, and less than, a limit that is set.
  abbrev pub AtMost : Option Price → Price → Type 0
  AtMost none x = Unit {0}
  AtMost (some limit) x = lte x limit ≡ true

  abbrev pub Below : Option Price → Price → Type 0
  Below none x = Unit {0}
  Below (some limit) x = lt x limit ≡ true

  -- A percentage of 0 is no limit.
  abbrev pub DrawdownPctIsBelow : Option Price → Option Price → Option Price → Type 0
  DrawdownPctIsBelow (some pct) (some equity) peak_equity =
      let peak = get_or peak_equity equity in
      gt pct (decimal 0) ≡ true
      → lt equity peak ≡ true
      → lt (mul (div (minus peak equity) peak) (decimal 100)) pct ≡ true
  DrawdownPctIsBelow _ _ peak_equity = Unit {0}

  abbrev pub DailyLossIsBelow : Option Price → Option Price → Option Price → Type 0
  DailyLossIsBelow (some pct) (some loss) (some equity) =
      gt pct (decimal 0) ≡ true → lt loss (div (mul equity pct) (decimal 100)) ≡ true
  DailyLossIsBelow _ _ _ = Unit {0}

  abbrev pub IsCooled : Option ℕ → Option ℕ → Option ℕ → Type 0
  IsCooled (some cooldown) (some last) (some now) = 0 < cooldown → last + cooldown ≤ now
  IsCooled _ _ _ = Unit {0}

  abbrev pub HasRoom : Option ℕ → ℕ → Type 0
  HasRoom none count = Unit {0}
  HasRoom (some limit) count = count < limit

  -- There is a price to value a quantity at, and the value is at most a part of the equity.
  abbrev pub SizePctIsAtMost : Option Price → Option Price → Option Price → Quantity → Type 0
  SizePctIsAtMost (some pct) (some equity) mark size =
      (m : Price) × (mark ≡ some m) × (lte (mul size m) (div (mul equity pct) (decimal 100)) ≡ true)
  SizePctIsAtMost _ _ mark size = Unit {0}

  abbrev pub NotionalIsAtMost : Option Price → Option Price → Quantity → Type 0
  NotionalIsAtMost none mark quantity = Unit {0}
  NotionalIsAtMost (some limit) mark quantity =
      (m : Price) × (mark ≡ some m) × (lte (mul quantity m) limit ≡ true)

  abbrev pub IsAccountSafe : RiskLimits → RiskSnapshot → Type 0
  IsAccountSafe l s =
      Below l.max_drawdown s.current_drawdown
      × DrawdownPctIsBelow l.max_drawdown_pct s.equity s.peak_equity
      × DailyLossIsBelow l.daily_max_loss_pct s.daily_loss s.equity
      × IsCooled l.stop_loss_cooldown_ms s.last_stop_loss_exit_ms s.now_ms

  abbrev pub IsAllowed : RiskLimits → RiskSnapshot → PlannedOrder → Type 0
  IsAllowed l s o =
      let size = compute_resulting_size s.current_position o.side o.quantity in
      let mark = mark_for_notional s.reference_mark o.price in
      AtMost l.max_position_size size
      × SizePctIsAtMost l.max_position_size_pct s.equity mark size
      × NotionalIsAtMost l.max_order_notional mark o.quantity
