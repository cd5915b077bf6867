-- ===== src/Executors/Swapping.antt =====
-- packages/engine/src/swap-live-executor.ts: `execute`, over the orders that it makes.
use traderton.Prelude.{
  ℕ, suc, String, Bool, true, false, List, [], ◌∷◌, ◌++◌, Option, none, some, all, any,
  if◌then◌else◌,
}
use mathlib.Core.Option
use traderton.Decimal.{DecimalLib}
use traderton.Result.{Result, ok, err}
use traderton.Order.{filled, rejected, same_status, ManagedOrder, FillEvent}
use traderton.Planner.{
  SwapParams, PlannedOrder, ExecutionPlan, PlanStatus, failed, executing, completed,
}
use traderton.Executors.{ExecutionResult}
use traderton.Executors.Shadow.{SwapQuote}
use traderton.Executors.SwapLive.{
  SwapReceipt, SwapCalls, price_of, prepared_order, rejected_order, attempting_order,
  acknowledged_order, filled_order, swap_fill_event,
}

module _ ⦃lib : DecimalLib⦄ where
  -- What one order comes to: the orders that are told, the last of them, and its fill.
  pub record Swapped : Type 0 where
    pub told : List ManagedOrder
    pub order : ManagedOrder
    pub fill : Option FillEvent

  abbrev pub refused : List ManagedOrder → ManagedOrder → Swapped
  refused told order = record { told = told ++ order ∷ []; order = order; fill = none }

  module _ {S : Type 0} (calls : SwapCalls S) where
    -- 2. The answer of `executeSwap`.
    unfoldable pub after_swap :
        S → ManagedOrder → ManagedOrder → Result SwapReceipt String → S × Swapped
    unfolding rejected_order acknowledged_order filled_order swap_fill_event
    after_swap s first attempting (err e) =
        let (s', now) = calls.now s in
        (
          s',
          refused (first ∷ attempting ∷ [])
              (rejected_order first attempting.submit_attempted_at attempting.reference_price now),
        )
    after_swap s first attempting (ok receipt) =
        let acknowledged = acknowledged_order attempting receipt in
        let last = filled_order acknowledged receipt in
        let (s', fill_id) = calls.id_gen.fill_id s in
        (
          s',
          record {
            told = first ∷ attempting ∷ acknowledged ∷ last ∷ [];
            order = last;
            fill = some (swap_fill_event last receipt fill_id);
          },
        )

    -- 1. The answer of `quote`.
    unfoldable pub after_quote : S → ManagedOrder → String → Result SwapQuote String → S × Swapped
    unfolding rejected_order price_of attempting_order after_swap
    after_quote s first now (err e) = (s, refused (first ∷ []) (rejected_order first none none now))
    after_quote s first now (ok quote) =
        let (s₁, attempted_at) = calls.now s in
        let expected = price_of first.side quote.input_amount quote.expected_output_amount in
        let attempting = attempting_order first expected attempted_at in
        let (s₂, answer) = calls.execute_swap s₁ quote in after_swap s₂ first attempting answer

    unfoldable pub with_params : S → ManagedOrder → String → Option SwapParams → S × Swapped
    unfolding rejected_order after_quote
    with_params s first now none = (s, refused (first ∷ []) (rejected_order first none none now))
    with_params s first now (some params) =
        let (s', answer) = calls.quote s (record {
          input_asset = params.input_asset;
          output_asset = params.output_asset;
          amount = params.amount;
          slippage_bps = 50;
        }) in
        after_quote s' first now answer

    -- One turn of the loop.
    unfoldable pub swap_order : ExecutionPlan → S → ℕ → PlannedOrder → S × Swapped
    unfolding prepared_order with_params
    swap_order plan s i planned =
        let (s₁, now) = calls.now s in
        let (s₂, order_id) = calls.id_gen.order_id s₁ in
        let client_order_id = Option.map (λ f. f plan.id i) calls.client_order_id in
        with_params s₂ (prepared_order plan planned order_id client_order_id now) now
          planned.swap_params

    unfoldable pub swap_orders : ExecutionPlan → S → ℕ → List PlannedOrder → S × List Swapped
    unfolding swap_order
    swap_orders plan s i [] = (s, [])
    swap_orders plan s i (planned ∷ more) =
        let (s₁, swapped) = swap_order plan s i planned in
        let (s₂, later) = swap_orders plan s₁ (suc i) more in (s₂, swapped ∷ later)

  abbrev pub orders_of : List Swapped → List ManagedOrder
  orders_of [] = []
  orders_of (x ∷ xs) = x.order ∷ orders_of xs

  abbrev pub add_fill : Option FillEvent → List FillEvent → List FillEvent
  add_fill none fills = fills
  add_fill (some f) fills = f ∷ fills

  abbrev pub fills_of : List Swapped → List FillEvent
  fills_of [] = []
  fills_of (x ∷ xs) = add_fill x.fill (fills_of xs)

  unfoldable pub swap_plan_status : List ManagedOrder → PlanStatus
  swap_plan_status orders =
      if all (λ o. same_status o.status rejected) orders
      then failed
      else if any (λ o. same_status o.status filled) orders
      then completed
      else executing

  abbrev pub is_under_way : PlanStatus → Bool
  is_under_way executing = true
  is_under_way _ = false

  unfoldable pub execute :
      {S : Type 0}
      → SwapCalls S
      → ExecutionPlan
      → S
      → S × List Swapped × Result ExecutionResult String
  unfolding swap_orders swap_plan_status
  execute calls plan s =
      let (s₁, swapped) = swap_orders calls plan s 0 plan.orders in
      let status = swap_plan_status (orders_of swapped) in
      let (s₂, now) = calls.now s₁ in
      (
        if is_under_way status then s₁ else s₂,
        swapped,
        ok (record {
          plan = record plan {
            status = status;
            completed_at = if is_under_way status then none else some now;
          };
          orders = orders_of swapped;
          fills = fills_of swapped;
        }),
      )
