-- ===== src/Tests/Executing.antt =====
-- Runs of packages/engine/src/paper-executor.ts, shadow-executor.ts and fee-simulator.ts.
use mathlib.Core.List.{Perm}
use traderton.Prelude.{◌≡◌, refl, inr, ◌↔◌, ℕ, List, [], ◌∷◌, ◌++◌, Option, none, some, false}
use traderton.Prelude.Int.{pos, ◌+ℤ◌, ◌*ℤ◌}
use traderton.Decimal.Integers.{whole_numbers, whole_numbers-Exact}
use traderton.Result.{ok}
use traderton.Order.{OrderType, OrderSide, sell, buy, swap, market, limit}
use traderton.Planner.{PlannedOrder, ExecutionPlan, completed}
use traderton.Executors.{FeeSimulatorConfig, apply_paper_slippage}
use traderton.Executors.Paper.{fill_price, base_price}
use traderton.Executors.Shadow.{World, PendingLimit}
use traderton.Executors.Placing.{place_all, pendings_of, result_of}
use traderton.Executors.Placements.{KeepTo, place_all-KeepTo, result_of-completed_iff}
use traderton.Executors.Pending.{is_trade_through, TradeEvent, resolve_pending_limits}
use traderton.Executors.Conservation.{
  trade_arrives, is_resolved, after_events, filled_ids, pending_ids, after_events-Perm,
}
use traderton.Executors.Triggers.{Includes, on_trades, resolve_pending_limits-fills}
use traderton.Executors.Symbols.{resolve_swap_assets, before, after}
use traderton.Tests.Samples.{counter, no_orders_plan}

abbrev planned : OrderType → OrderSide → ℕ → Option ℕ → PlannedOrder
planned type side quantity none = record {
  side = side;
  type = type;
  quantity = pos quantity;
  price = none;
  time_in_force = none;
  post_only = none;
  reduce_only = none;
  swap_params = none;
}
planned type side quantity (some price) = record {
  side = side;
  type = type;
  quantity = pos quantity;
  price = some (pos price);
  time_in_force = none;
  post_only = none;
  reduce_only = none;
  swap_params = none;
}

abbrev costs : FeeSimulatorConfig
costs = record {
  taker_fee_pct = pos 1;
  maker_fee_pct = pos 1;
  paper_slippage_bps = some (pos 10_000);
}

-- A spread of 100 per cent.
doubled : fill_price (some costs) (planned market buy 1 none) (pos 7) ≡ pos 14
unfolding fill_price apply_paper_slippage base_price ◌+ℤ◌ ◌*ℤ◌
doubled = refl

assets_of_pair : resolve_swap_assets "SOL/USDC:x" buy ≡ ("USDC", "SOL")
unfolding resolve_swap_assets before after
assets_of_pair = refl

-- The swap venue answers with more than was planned.
abbrev world : World ℕ
world = record {
  id_gen = counter;
  get_ticker = λ n symbol. none;
  swap_venue =
      some (λ n p. (n, ok (record { input_amount = pos 90; expected_output_amount = pos 9 })));
}

abbrev plan : ExecutionPlan
plan = record no_orders_plan {
  orders = planned swap buy 8 none ∷ planned limit sell 2 (some 20) ∷ [];
}

place_all-KeepTo_example :
    KeepTo plan.orders (place_all world none 0 plan (pos 12) "t" plan.orders).1
place_all-KeepTo_example = place_all-KeepTo world none 0 plan (pos 12) "t" plan.orders

result_of-completed_iff_example :
    ((result_of plan "t" (place_all world none 0 plan (pos 12) "t" plan.orders).1).plan.status
      ≡ completed)
    ↔ (pendings_of (place_all world none 0 plan (pos 12) "t" plan.orders).1 ≡ [])
result_of-completed_iff_example =
    result_of-completed_iff plan "t" (place_all world none 0 plan (pos 12) "t" plan.orders).1
      (place_all-KeepTo world none 0 plan (pos 12) "t" plan.orders)

abbrev waiting : PendingLimit
waiting = record {
  order_id = "o2";
  plan = plan;
  side = sell;
  quantity = pos 2;
  limit_price = pos 20;
  created_at = "t";
  resolved = false;
  resolved_fill = none;
}

abbrev trade : TradeEvent
trade = record { symbol = "BTC"; price = pos 21; timestamp = "t2" }

after_events-Perm_example :
    let r = after_events counter none 0 (waiting ∷ []) (trade_arrives trade ∷ is_resolved ∷ []) in
    Perm (filled_ids r.1 ++ pending_ids r.2) ("o2" ∷ [])
after_events-Perm_example =
    after_events-Perm counter none 0 (waiting ∷ []) (trade_arrives trade ∷ is_resolved ∷ [])
      (refl, tt)

-- One trade that does not reach the limit, and one that comes too late.
abbrev trades : List TradeEvent
trades =
    record { symbol = "BTC"; price = pos 19; timestamp = "t1" }
    ∷ trade
    ∷ record { symbol = "BTC"; price = pos 22; timestamp = "t3" }
    ∷ []

resolve_pending_limits-fills_example :
    Includes
      (resolve_pending_limits counter none 0 (on_trades trades (waiting ∷ []))).1
      waiting
      trade
unfolding is_trade_through
resolve_pending_limits-fills_example =
    resolve_pending_limits-fills counter none 0 [] [] waiting
      (record { symbol = "BTC"; price = pos 19; timestamp = "t1" } ∷ []) trade
      (record { symbol = "BTC"; price = pos 22; timestamp = "t3" } ∷ []) refl (inr refl, tt)
      (refl, refl)
