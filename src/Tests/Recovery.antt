-- ===== src/Tests/Recovery.antt =====
-- Runs of live-recovery.ts, live-timeout-manager.ts, swap-position-tracker.ts and
-- order-update-decision.ts of packages/engine/src.
use traderton.Prelude.{
  ◌≢◌, ◌≡◌, refl, ◌↔◌, ◌⊎◌, ◌||◌, any, all, ℕ, String, true, false, List, [], ◌∷◌, Option, none,
  some,
}
use traderton.Prelude.Int.{pos}
use traderton.Decimal.{plus}
use traderton.Decimal.Integers.{whole_numbers, whole_numbers-Exact}
use traderton.Order.{buy, gtc, po}
use traderton.LiveRecovery.{
  LiveRecoveryOrder, EvaluateOrderbookRecoveryInput, mark_failed, keep_executing, mark_completed,
  evaluate_orderbook_recovery, evaluate_unfilled, is_terminal_non_filled, is_prepared_only,
  has_open, has_evidence,
}
use traderton.LiveRecovery.Verdicts.{
  has_orders, HasOpen, HasFill, evaluate_orderbook_recovery_iff, failed_is_safe,
}
use traderton.LiveTimeout.{LiveTimeoutOrder, LiveTimeoutPolicy}
use traderton.SwapPositions.{SwapFill, record_swap_fills, get_projected_balance_delta}
use traderton.SwapPositions.Flows.{net_flow, delta-record_swap_fills}
use traderton.OrderUpdate.{VenueCapabilities, OrderUpdateRequest}

abbrev ended : String → LiveRecoveryOrder
ended status = record {
  id = "o1";
  status = status;
  submission_state = some "terminal";
  venue_ref_id = some "v1";
  client_order_id = some "c1";
}

abbrev two_ended : List LiveRecoveryOrder
two_ended = ended "cancelled" ∷ ended "rejected" ∷ []

abbrev cut_off : EvaluateOrderbookRecoveryInput
cut_off = record {
  orders = two_ended;
  has_open_orders = false;
  matched_fill_count = 0;
  matched_orders_from_lookup = [];
  lookup_ambiguous = false;
  no_orders_planned = false;
}

given_up : (evaluate_orderbook_recovery cut_off).kind ≡ mark_failed
unfolding evaluate_orderbook_recovery evaluate_unfilled
given_up = refl

failed_is_safe_example :
    (has_orders two_ended ≡ false)
    ⊎ ((has_open cut_off ≡ false)
        × (has_evidence cut_off ≡ false)
        × (false ≡ false)
        × ((all (λ o. is_terminal_non_filled o.status) two_ended || any is_prepared_only two_ended)
            ≡ true))
failed_is_safe_example = failed_is_safe cut_off given_up

evaluate_orderbook_recovery_iff_example :
    (((evaluate_orderbook_recovery cut_off).kind ≡ keep_executing)
      ↔ ((two_ended ≢ []) × HasOpen cut_off))
    × (((evaluate_orderbook_recovery cut_off).kind ≡ mark_completed)
        ↔ ((two_ended ≢ []) × ¬ HasOpen cut_off × HasFill cut_off))
evaluate_orderbook_recovery_iff_example = evaluate_orderbook_recovery_iff cut_off

-- A clock that reads every text as the time 100.
abbrev at_hundred : String → Option ℕ
at_hundred text = some 100

abbrev policy : LiveTimeoutPolicy
policy = record { limit_order_timeout_ms = 50; market_order_timeout_ms = 10 }

abbrev resting : LiveTimeoutOrder
resting = record {
  id = "o1";
  symbol = "BTC";
  type = "limit";
  status = "open";
  venue_ref_id = some "v1";
  submission_state = none;
  submit_attempted_at = none;
  acknowledged_at = none;
  created_at = some "t0";
}

abbrev swap_of : String → String → SwapFill
swap_of input output = record {
  input_asset = input;
  input_amount = pos 3;
  output_asset = output;
  output_amount = pos 2;
  timestamp = 1;
}

delta-record_swap_fills_example :
    get_projected_balance_delta (record_swap_fills [] (swap_of "A" "B" ∷ swap_of "B" "B" ∷ [])) "B"
    ≡ plus
        (get_projected_balance_delta [] "B")
        (net_flow "B" (swap_of "A" "B" ∷ swap_of "B" "B" ∷ []))
delta-record_swap_fills_example =
    delta-record_swap_fills (swap_of "A" "B" ∷ swap_of "B" "B" ∷ []) [] "B"

abbrev capabilities : VenueCapabilities
capabilities = record {
  limit_order_submission = true;
  amend_in_place = false;
  cancel_and_replace = true;
  post_only = true;
  reduce_only = false;
  supported_time_in_force = gtc ∷ po ∷ [];
  supports_client_order_id = true;
  supports_lookup_by_client_order_id = false;
  supports_lookup_by_venue_ref_id = true;
}

abbrev request : OrderUpdateRequest
request = record {
  order_id = "o1";
  venue_ref_id = "v1";
  symbol = "BTC";
  side = buy;
  new_price = some (pos 9);
  new_quantity = none;
  time_in_force = some po;
  post_only = some true;
  reduce_only = none;
  reason = "reprice";
}
