-- ===== src/Tests/Execution.antt =====
-- Runs of the trackers and of the level checks of packages/engine/src.
use traderton.Prelude.{◌≡◌, refl, ◌↔◌, ℕ, List, [], ◌∷◌, none, some}
use traderton.Prelude.Int.{pos, negsuc, ◌+ℤ◌, ◌-ℤ◌, ◌*ℤ◌}
use traderton.Decimal.{plus}
use traderton.Decimal.Integers.{whole_numbers, whole_numbers-Exact}
use traderton.Order.{buy, sell, FillEvent}
use traderton.Position.{long, flat}
use traderton.Trackers.DailyLoss.{DailyLossTracker, oldest_entry_ms}
use traderton.Trackers.Equity.{
  EquityTracker, EquityCall, fills, asks_equity, asks_drawdown, after_calls, peak_equity,
  current_equity, current_drawdown, seen, IsGreatest, peak_equity-IsGreatest, current_drawdown_lem,
}
use traderton.Trackers.Equity
use traderton.Trackers.Accounting
use traderton.Position
use traderton.Trackers.Accounting.{
  AccountingTrackers, account_all, apply_fill_accounting, update_trackers, total_fees,
  account_all_reconciles,
}
use traderton.StopLoss.{
  StopLossConfig, StopLossCheck, PerTradeLevelCheck, check_stop_loss, check_per_trade_levels,
  validate_per_trade_levels,
}
use traderton.StopLoss
use traderton.StopLoss.Triggers.{Finds, check_stop_loss-Finds}
use traderton.StopLoss.Validation.{Encloses, input_of, validate_per_trade_levels_iff}
use traderton.Tests.Samples.{no_time, position, fill}

abbrev losses : DailyLossTracker
losses = record { entries = record { loss = pos 7; timestamp_ms = 100 } ∷ [] }

oldest_of_losses : oldest_entry_ms losses 200 ≡ some 100
unfolding oldest_entry_ms
oldest_of_losses = refl

abbrev equity : EquityTracker
equity = record { starting_capital = pos 100; realized_pnl = pos 0; peak = pos 100 }

abbrev questions : List EquityCall
questions = fills (pos 20) ∷ asks_equity (pos 5) ∷ asks_drawdown (negsuc 9) ∷ []

abbrev trackers : AccountingTrackers
trackers = record { equity_tracker = some equity; daily_loss_tracker = none; now_ms = some 5 }

abbrev trades : List (FillEvent × ℕ)
trades = (fill buy 2 10, 0) ∷ (fill sell 2 13, 1) ∷ []

abbrev equity_after : EquityTracker
equity_after = record { starting_capital = pos 100; realized_pnl = pos 4; peak = pos 100 }

booked :
    (account_all no_time (position flat 0 0) trackers trades).1.equity_tracker ≡ some equity_after
unfolding account_all apply_fill_accounting update_trackers Equity.record_fill
    Accounting.realized_pnl_delta Accounting.fee_cost Position.apply_fill Position.closed ◌+ℤ◌ ◌-ℤ◌
    ◌*ℤ◌
booked = refl

account_all_reconciles_example :
    plus (plus (pos 4) (total_fees trades)) (pos 0)
    ≡ plus (pos 0) (account_all no_time (position flat 0 0) trackers trades).0.realized_pnl
account_all_reconciles_example =
    account_all_reconciles no_time (position flat 0 0) trackers trades equity equity_after refl
      booked

abbrev config : StopLossConfig
config = record { max_unrealized_loss_pct = pos 10 }

abbrev falling : StopLossCheck
falling = record {
  instrument = "BTC";
  position = position long 5 10;
  mark_price = pos 7;
  equity = pos 100;
}

check_stop_loss-Finds_example : Finds config (falling ∷ []) (check_stop_loss config (falling ∷ []))
check_stop_loss-Finds_example = check_stop_loss-Finds config (falling ∷ []) refl

abbrev levels : PerTradeLevelCheck
levels = record {
  instrument = "BTC";
  side = StopLoss.long;
  mark_price = pos 10;
  stop_loss = some (pos 8);
  take_profit = some (pos 15);
}

validate_per_trade_levels_iff_example :
    (validate_per_trade_levels (input_of levels) ≡ none)
    ↔ Encloses StopLoss.long (some (pos 8)) (pos 10) (some (pos 15))
validate_per_trade_levels_iff_example = validate_per_trade_levels_iff (input_of levels)

levels_accepted : validate_per_trade_levels (input_of levels) ≡ none
unfolding validate_per_trade_levels
levels_accepted = refl
