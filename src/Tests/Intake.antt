-- ===== src/Tests/Intake.antt =====
-- Runs of packages/engine/src/decision-intake.ts, trading-cycle.ts, instrument-executor.ts, paper-executor.ts and
-- shadow-executor.ts.
use traderton.Prelude.{◌≡◌, refl, ℕ, suc, none, some}
use traderton.Prelude.Int.{pos}
use traderton.Decimal.Integers.{whole_numbers, whole_numbers-Exact}
use traderton.Result.{ok}
use traderton.Position.{long}
use traderton.Planner.{orderbook_venue}
use traderton.RiskGate.{check_risk}
use traderton.DecisionIntake.{
  IntakeCalls, IntakeDeps, IntakeTrackers, Readings, DecisionContext, Submission,
}
use traderton.DecisionIntake.Snapshot.{risk_snapshot}
use traderton.DecisionIntake.Hash.{normalize_context_hash, trim_start, trim_end}
use traderton.DecisionIntake.Cycle.{MarketSnapshot, CycleCalls, CycleDeps, run_trading_cycle}
use traderton.DecisionIntake.Cycles.{HashesAreTrimmed, Ends, run_trading_cycle-Ends}
use traderton.DecisionIntake.Drawdown.{check_risk-max_drawdown_pct}
use traderton.DecisionIntake.PaperTrading.{paper_execute, paper_execute-AreComplete}
use traderton.InstrumentExecutor.{
  ExecutionMode, paper_mode, live_mode, InstrumentExecutorDeps, execute_decision, execute_with,
  choose_executor, live_of,
}
use traderton.InstrumentExecutor.Accounts.{Accounts, execute_decision-Accounts}
use traderton.Tests.Samples.{
  counter, no_orders_plan, position, no_time, no_limits, long_five-IsValid, short_ten,
}

abbrev calls : IntakeCalls ℕ
calls = record {
  plan_id = λ n. (suc n, "plan");
  execute = paper_execute counter none "t1";
  check_swap_target = none;
  compute_decision_context_hash = λ c. "abc";
  to_upper_case = λ s. s;
  parse_date = no_time;
  get_time = λ s. 0;
}

abbrev deps : IntakeDeps
deps = record {
  actor_type = "agent";
  actor_id = "a1";
  venue = "venue";
  symbol = "BTC";
  instrument_id = none;
  venue_account_id = "account";
  venue_type = some orderbook_venue;
  swap_assets = none;
  swap_network = none;
  swap_base_token_address = none;
  risk_limits = no_limits;
  safety_override_id = none;
  open_position_count = none;
  equity = none;
  open_positions = none;
  last_stop_loss_exit_ms = none;
  precomputed_unrealized_pnl = none;
}

abbrev trackers : IntakeTrackers
trackers = record {
  equity_tracker =
      some (record { starting_capital = pos 100; realized_pnl = pos 0; peak = pos 100 });
  daily_loss_tracker = none;
  swap_position_tracker = none;
}

abbrev clock : Readings
clock = record { created_at = "t0"; loss_ms = 1; now_ms = 1; fill_ms = 2 }

abbrev context : DecisionContext
context = record {
  snapshot_symbol = "BTC";
  snapshot_price = pos 12;
  snapshot_timestamp = "t0";
  position = none;
  mark_price = pos 12;
  mark_source = "snapshot";
}

abbrev submission : Submission
submission = record { decision = short_ten; context_hash = none; reason = none }

-- Half of the equity is lost, and 10 per cent are allowed.
check_risk-max_drawdown_pct_example :
    let s = (risk_snapshot deps trackers (position long 5 22) context clock).1 in
    check_risk no_orders_plan (record no_limits { max_drawdown_pct = some (pos 10) }) s
    ≡ check_risk no_orders_plan (record no_limits { max_drawdown_pct = none }) s
check_risk-max_drawdown_pct_example =
    check_risk-max_drawdown_pct deps trackers (position long 5 22) context clock no_orders_plan
      no_limits (some (pos 10))

abbrev cycle_calls : CycleCalls ℕ
cycle_calls = record {
  evaluate = λ n snapshot. (n, ok (some submission));
  mark_source = none;
  intake = calls;
}

abbrev cycle_deps : CycleDeps
cycle_deps = record { bot_id = none; intake = deps }

abbrev snapshot : MarketSnapshot
snapshot = record { symbol = "BTC"; price = pos 12; timestamp = "t0" }

calls-HashesAreTrimmed : HashesAreTrimmed calls
unfolding normalize_context_hash trim_start trim_end
calls-HashesAreTrimmed c = refl

run_trading_cycle-Ends_example :
    Ends cycle_calls cycle_deps snapshot
      (position long 5 10)
      trackers
      0
      (ok (some submission))
      (run_trading_cycle cycle_calls cycle_deps clock snapshot (position long 5 10) trackers 0)
run_trading_cycle-Ends_example =
    run_trading_cycle-Ends cycle_calls cycle_deps clock
      (paper_execute-AreComplete counter none "t1") calls-HashesAreTrimmed snapshot
      (position long 5 10) trackers 0 long_five-IsValid refl

-- A live decision without a port, and one in paper mode.
abbrev instrument_deps : ExecutionMode → InstrumentExecutorDeps ℕ
instrument_deps mode = record {
  execution_mode = mode;
  venue_type = orderbook_venue;
  executor = none;
  live_executor = none;
  swap_live_executor = none;
  paper_executor = paper_execute counter none "t1";
  mark_source = none;
  snapshot = snapshot;
  intake = deps;
}

no_port :
    (execute_decision calls
      (instrument_deps live_mode)
      clock
      submission
      (position long 5 10)
      trackers
      0).3.error
    ≡ some "live execution requires venuePort (orderbook) or swapVenue (swap)"
unfolding execute_decision execute_with choose_executor live_of
no_port = refl

execute_decision-Accounts_example :
    Accounts
      (position long 5 10)
      (execute_decision calls
        (instrument_deps paper_mode)
        clock
        submission
        (position long 5 10)
        trackers
        0).3
execute_decision-Accounts_example =
    execute_decision-Accounts calls (instrument_deps paper_mode) clock submission
      (position long 5 10) trackers 0
