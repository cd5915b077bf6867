-- ===== src/Tests/Venue.antt =====
-- Runs of packages/engine/src/live-executor.ts and swap-live-executor.ts, packages/venues/src/
-- rate-limiter.ts and packages/worker/src/agent-risk-limits.ts.
use traderton.Prelude.{
  ◌≡◌, refl, ℕ, suc, ◌+◌, ◌*◌, ◌≤◌, List, [], ◌∷◌, none, some, true, false, arith, length,
}
use traderton.Prelude.Int.{pos}
use traderton.Decimal.Integers.{whole_numbers, whole_numbers-Exact}
use traderton.Result.{ok, err}
use traderton.Order.{OrderType, swap, buy}
use traderton.OrderUpdate.{VenueCapabilities}
use traderton.Planner.{PlannedOrder, ExecutionPlan}
use traderton.Executors.Live.{LiveCalls}
use traderton.Executors.SwapLive.{SwapCalls}
use traderton.Executors.Swapping.{execute}
use traderton.Executors.Swaps.{SettleAll, Reports, execute-IsSettled}
use traderton.RateLimiter.{
  RateLimiterConfig, RateLimiter, LimiterEvent, tries, waits, fires, after_events, new, refill,
  serve, drain, one_token,
}
use traderton.RateLimiter.Invariant.{IsSound, after_events-IsSound}
use traderton.RateLimiter.Grants.{after_events-grants}
use traderton.RateLimiter.Service.{fire_all, waiting_ids, granted_ids, fire_all-serves}
use traderton.Tests.Samples.{counter, no_orders_plan}

abbrev no_capabilities : VenueCapabilities
no_capabilities = record {
  limit_order_submission = true;
  amend_in_place = false;
  cancel_and_replace = false;
  post_only = false;
  reduce_only = false;
  supported_time_in_force = [];
  supports_client_order_id = true;
  supports_lookup_by_client_order_id = false;
  supports_lookup_by_venue_ref_id = false;
}

abbrev order_of_type : OrderType → PlannedOrder
order_of_type type = record {
  side = buy;
  type = type;
  quantity = pos 3;
  price = none;
  time_in_force = none;
  post_only = none;
  reduce_only = none;
  swap_params = some (record { input_asset = "USDC"; output_asset = "SOL"; amount = pos 30 });
}

abbrev live_calls : LiveCalls ℕ
live_calls = record {
  id_gen = counter;
  now = λ n. (suc n, "t");
  client_order_id = λ plan_id i. plan_id;
  get_capabilities = λ n. no_capabilities;
  submit_order = λ n command. (n, err "down");
}

abbrev swap_calls : SwapCalls ℕ
swap_calls = record {
  id_gen = counter;
  now = λ n. (suc n, "t");
  client_order_id = none;
  quote = λ n p. (n, ok (record { input_amount = pos 30; expected_output_amount = pos 3 }));
  execute_swap = λ n q. (
    n,
    ok (record {
      execution_ref = "tx";
      input_amount = pos 30;
      output_amount = pos 3;
      timestamp = "t";
    }),
  );
}

abbrev swap_plan : ExecutionPlan
swap_plan = record no_orders_plan { orders = order_of_type swap ∷ [] }

execute-IsSettled_example :
    let (s', swapped, result) = execute swap_calls swap_plan 0 in
    SettleAll swap_plan.orders swapped × Reports swap_plan swapped result
execute-IsSettled_example = execute-IsSettled swap_calls swap_plan 0

-- Two tokens at the start, and two more each second.
abbrev config : RateLimiterConfig
config = record { capacity = 2; refill_rate = 2 }

abbrev burst : List LimiterEvent
burst = tries 0 ∷ waits 1 0 ∷ waits 2 0 ∷ waits 3 0 ∷ tries 100 ∷ fires 501 ∷ []

after_events-grants_example :
    one_token * (after_events config (new config 0) burst).1 + 0 * 2 ≤ 2 * one_token + 501 * 2
after_events-grants_example =
    after_events-grants config 0 burst
      (omega arith, (omega arith, (omega arith, (omega arith, (omega arith, (omega arith, tt))))))

after_events-IsSound_example : IsSound config (after_events config (new config 0) burst).0
after_events-IsSound_example = after_events-IsSound config 0 burst

-- Two wait, and no token is there.
abbrev crowded : RateLimiter
crowded = record {
  tokens = 0;
  last_refill = 0;
  queue = record { id = 1; enqueued_at = 0 } ∷ record { id = 2; enqueued_at = 0 } ∷ [];
  draining = true;
  timer = none;
}

two_wait : length (drain config crowded 0).0.queue ≡ 2
unfolding drain refill serve
two_wait = refl

fire_all-serves_example :
    let r = fire_all config (drain config crowded 0).0 (0 ∷ 7 ∷ []) in
    (r.0.queue ≡ []) × (granted_ids r.1 ≡ waiting_ids (drain config crowded 0).0.queue)
fire_all-serves_example =
    fire_all-serves config crowded 0 (0 ∷ 7 ∷ []) (omega arith) (omega arith)
      (omega (arith, two_wait))
