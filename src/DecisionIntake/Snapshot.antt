-- ===== src/DecisionIntake/Snapshot.antt =====
-- packages/engine/src/decision-intake.ts: what the intake asks the planner, the token guard and the
-- risk gate. The estimated notional is a decimal, before it is printed with two digits.
use traderton.Prelude.{
  ℕ, String, str_eq, Bool, false, List, [], ◌∷◌, Option, none, some, get_or, any, if◌then◌else◌,
}
use mathlib.Core.Option
use traderton.Decimal.{DecimalLib, Price, decimal, mul, lte}
use traderton.Position.{PositionState, total_unrealized_pnl, is_flat, is_buy}
use traderton.Planner.{VenuePosition, PlannerDeps, PlannedOrder, ExecutionPlan, SwapAssets}
use traderton.RiskGate.{RiskSnapshot}
use traderton.Trackers.Equity.{EquityTracker, current_equity, current_drawdown}
use traderton.Trackers.DailyLoss.{DailyLossTracker, rolling_loss}
use traderton.DecisionIntake.{
  DecisionContext, Submission, IntakeDeps, IntakeTrackers, SafetyRequest, Readings,
}

abbrev pub stablecoin_symbols : List String
stablecoin_symbols = "USDC" ∷ "USDT" ∷ "DAI" ∷ "BUSD" ∷ "PYUSD" ∷ "USDP" ∷ "TUSD" ∷ "FRAX" ∷ []

module _ ⦃lib : DecimalLib⦄ where
  unfoldable pub venue_position : PositionState → Option VenuePosition
  venue_position p =
      if is_flat p.side
      then none
      else some
          (record { symbol = p.symbol; side = p.side; size = p.size; entry_price = p.entry_price })

  unfoldable pub planner_deps : IntakeDeps → PositionState → PlannerDeps
  unfolding venue_position
  planner_deps deps position = record {
    current_position = venue_position position;
    venue = deps.venue;
    symbol = deps.symbol;
    venue_type = deps.venue_type;
    swap_assets = deps.swap_assets;
  }

  -- `plan.orders.find((o) => o.side === 'buy')`
  unfoldable pub find_buy : List PlannedOrder → Option PlannedOrder
  find_buy [] = none
  find_buy (o ∷ os) = let rest = find_buy os in if is_buy o.side then some o else rest

  abbrev pub is_stable : (String → String) → Option SwapAssets → Bool
  is_stable to_upper_case none = false
  is_stable to_upper_case (some assets) =
      any (str_eq (to_upper_case assets.quote_asset)) stablecoin_symbols

  unfoldable pub compute_estimated_notional_usd :
      (String → String) → ExecutionPlan → DecisionContext → Option SwapAssets → Option Price
  unfolding find_buy
  compute_estimated_notional_usd to_upper_case plan context swap_assets =
      elim (find_buy plan.orders) [
        | none ↦ none
        | some order ↦
            if lte order.quantity (decimal 0)
            then none
            else if is_stable to_upper_case swap_assets
            then some order.quantity
            else if lte context.mark_price (decimal 0)
            then none
            else some (mul order.quantity context.mark_price)
      ]

  unfoldable pub safety_request :
      (String → String)
      → IntakeDeps
      → Submission
      → ExecutionPlan
      → DecisionContext
      → String
      → SafetyRequest
  unfolding compute_estimated_notional_usd
  safety_request to_upper_case deps submission plan context token_address = record {
    actor_type = deps.actor_type;
    actor_id = deps.actor_id;
    bot_id = submission.decision.bot_id;
    venue = deps.venue;
    venue_account_id = deps.venue_account_id;
    network = get_or deps.swap_network "";
    token_address = token_address;
    token_symbol = Option.map (λ a. a.base_asset) deps.swap_assets;
    estimated_order_notional_usd =
        compute_estimated_notional_usd to_upper_case plan context deps.swap_assets;
    override_id = deps.safety_override_id;
  }

  -- The profit that is not realized yet, over all positions that the caller knows of.
  unfoldable pub unrealized : IntakeDeps → PositionState → DecisionContext → Price
  unrealized deps position context = get_or deps.precomputed_unrealized_pnl (
      total_unrealized_pnl
        (get_or deps.open_positions (if is_flat position.side then [] else position ∷ []))
        context.mark_price)

  -- The questions put to the equity tracker, the drawdown first: the tracker, the drawdown and the
  -- equity.
  unfoldable pub ask_equity :
      Option EquityTracker → Option Price → Price → Option EquityTracker × Price × Option Price
  ask_equity none equity unrealized = (none, decimal 0, equity)
  ask_equity (some t) equity unrealized =
      let (t₁, drawdown) = current_drawdown t unrealized in
      let (t₂, current) = current_equity t₁ unrealized in (some t₂, drawdown, some current)

  unfoldable pub ask_daily_loss :
      Option DailyLossTracker → ℕ → Option DailyLossTracker × Option Price
  ask_daily_loss none now = (none, none)
  ask_daily_loss (some t) now = let (t', loss) = rolling_loss t now in (some t', some loss)

  -- The snapshot for the gate. It has no peak equity.
  unfoldable pub risk_snapshot :
      IntakeDeps
      → IntakeTrackers
      → PositionState
      → DecisionContext
      → Readings
      → IntakeTrackers × RiskSnapshot
  unfolding unrealized ask_equity ask_daily_loss
  risk_snapshot deps trackers position context clock =
      let (equity_tracker, drawdown, equity) =
        ask_equity trackers.equity_tracker deps.equity (unrealized deps position context) in
      let (daily_loss_tracker, daily_loss) =
        ask_daily_loss trackers.daily_loss_tracker clock.loss_ms in
      (
        record trackers {
          equity_tracker = equity_tracker;
          daily_loss_tracker = daily_loss_tracker;
        },
        record {
          current_position = if is_flat position.side then none else some position;
          open_position_count =
              get_or deps.open_position_count (if is_flat position.side then 0 else 1);
          current_drawdown = drawdown;
          equity = equity;
          peak_equity = none;
          daily_loss = daily_loss;
          last_stop_loss_exit_ms = deps.last_stop_loss_exit_ms;
          now_ms = some clock.now_ms;
          reference_mark = some context.mark_price;
        },
      )
