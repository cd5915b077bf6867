-- ===== src/Executors.antt =====
-- packages/engine/src/executor.ts and fee-simulator.ts: what an executor returns, and the simulated
-- costs. A percentage or a number of basis points is the decimal that it denotes; an error is its
-- code. An executor's own calls (the generator of identifiers, the feed and the swap venue) change
-- the state `S` of what it talks to.
pub mod Symbols
pub mod Paper
pub mod Shadow
pub mod Placing
pub mod Pending
pub mod Costs
pub mod Filled
pub mod Placements
pub mod Conservation
pub mod Triggers
pub mod Live
pub mod Submissions
pub mod SwapLive
pub mod Swapping
pub mod Swaps
use traderton.Prelude.{String, List, Option, none, some, get_or, if◌then◌else◌}
use traderton.Decimal.{DecimalLib, Price, Quantity, decimal, plus, minus, mul, div, abs, lte}
use traderton.Order.{OrderSide, ManagedOrder, FillEvent}
use traderton.Position.{is_buy}
use traderton.Planner.{ExecutionPlan}

-- `idGen.orderId()` and `idGen.fillId()`.
pub record IdGenerator (S : Type 0) : Type 0 where
  pub order_id : S → S × String
  pub fill_id : S → S × String

module _ ⦃lib : DecimalLib⦄ where
  pub record ExecutionResult : Type 0 where
    pub plan : ExecutionPlan
    pub orders : List ManagedOrder
    pub fills : List FillEvent

  pub record FeeSimulatorConfig : Type 0 where
    pub taker_fee_pct : Price
    pub maker_fee_pct : Price
    pub paper_slippage_bps : Option Price

  unfoldable pub simulate_fee : FeeSimulatorConfig → Price → Quantity
  simulate_fee config notional = abs (mul notional config.taker_fee_pct)

  unfoldable pub apply_paper_slippage : FeeSimulatorConfig → Price → OrderSide → Price
  apply_paper_slippage config fill_price side =
      let bps = get_or config.paper_slippage_bps (decimal 0) in
      let factor = div bps (decimal 10_000) in
      if lte bps (decimal 0)
      then fill_price
      else if is_buy side
      then mul fill_price (plus (decimal 1) factor)
      else mul fill_price (minus (decimal 1) factor)

  -- `this.feeConfig ? simulateFee(this.feeConfig, price.mul(quantity)) : quantity('0')`
  unfoldable pub fee_of : Option FeeSimulatorConfig → Price → Quantity → Quantity
  unfolding simulate_fee
  fee_of none price quantity = decimal 0
  fee_of (some config) price quantity = simulate_fee config (mul price quantity)
