-- ===== src/Lib.antt =====
-- Verification library of traderton's trading engine (packages/engine, with parts of
-- packages/domain, venues, market-data and worker).
--
-- The engine turns a decision into a plan of orders (planner), checks the plan against risk
-- limits (risk gate), executes it (executors, one for each mode), all in one pipeline (decision
-- intake, called by the trading cycle), tracks each order through its life (order manager, and
-- the lifecycle manager for live limit orders), makes positions of fills (position tracker), and
-- books profit, loss and drawdown (fill accounting, equity and daily-loss trackers). Stop losses,
-- the venue breaker, recovery after a cut-off and timeouts of live orders watch over it. The
-- model has one module for each:
--   * Result: domain/src/result.ts. Order: engine/src/order-state.ts and the enums.
--   * OrderManager: engine/src/order-manager.ts. The map of orders and the reports of a full
--     history are the state, passed explicitly; State has `create` and `recordTransition`,
--     Operations the five status changes, Fill `applyFill`, Queries `prune` and the listings, and
--     Calls one call and a history of them.
--   * LifecycleManager: engine/src/order-lifecycle-manager.ts.
--   * Position: engine/src/position-tracker.ts.
--   * Trackers: engine/src/circuit-breaker.ts, daily-loss-tracker.ts, equity-tracker.ts and
--     fill-accounting.ts.
--   * StopLoss: engine/src/stop-loss-monitor.ts and per-trade-level-validator.ts.
--   * Planner: engine/src/planner.ts. RiskGate: engine/src/risk-gate.ts.
--   * OrderUpdate: engine/src/order-update-decision.ts and domain/src/trading/venue-capability.ts.
--   * LiveRecovery: engine/src/live-recovery.ts. LiveTimeout: engine/src/live-timeout-manager.ts.
--   * SwapPositions: engine/src/swap-position-tracker.ts.
--   * Reconciliation: engine/src/reconciliation/reconcile.ts, the local state against the venue's.
--   * AgentRisk: domain/src/agent-risk-contract.ts and worker/src/agent-risk-limits.ts, where the
--     limits of the risk gate come from: Profile and Enforced are what is shown and what is used.
--   * Executors: engine/src/executor.ts and fee-simulator.ts; below it Paper and Pending are
--     paper-executor.ts, Shadow and Placing shadow-executor.ts, Live live-executor.ts, and SwapLive
--     and Swapping swap-live-executor.ts. They turn a plan into fills.
--   * DecisionIntake: engine/src/decision-intake.ts, from the snapshot over the plan, the gate and
--     the executor to the booking of the fills; Hash is decision-context-hash.ts, and Cycle is
--     trading-cycle.ts, which asks a strategy for the decision.
--   * InstrumentExecutor: engine/src/instrument-executor.ts, one decision without a cycle.
--   * RateLimiter: venues/src/rate-limiter.ts, the limiter of the calls of a venue.
--   * RateBudget: market-data/src/rate-limiter.ts, the budget that callers of a data provider share,
--     in memory and in Redis (Script), and the limiter of one process (Process).
--   * InstanceLease: worker/src/instance-lease.ts, the ownership of an instance among workers.
--   * CandleBreaker: worker/src/candle-fetch-breaker.ts.
-- (All paths are below packages.) A function of the source has its name in snake case; a branch
-- or a loop's turn that a proof speaks of has a name of its own. The definitions are executable,
-- and Tests runs them.
--
-- The class Decimal of decimal.js is the record `DecimalLib`, an instance argument. Theorems that
-- need its laws take `Exact`: a total order, and sums and products that are exact at the
-- precision in use; a quotient may be rounded, but monotonically. Decimal/Integers shows that the
-- laws can hold. The clock's reading is an argument, the parsing of a time stamp a parameter, and
-- a Map an association list in order of insertion (Prelude.JsMap), or a function where nothing
-- lists it. Every loop is structural recursion over a list but one: the loop in which a caller of
-- a shared budget waits has fuel for one turn more than the milliseconds that it may wait, which
-- is enough since each turn sleeps one at least. Times, counts and the limits of an agent are
-- whole numbers; other percentages are decimals.
--
-- The executors and the intake return what they did beside their result: the calls of the store,
-- the venue and the journal in order, as a list. These calls are taken not to fail; an executor
-- that throws, a guard that refuses and a quote that is missing are values that the caller is
-- given. The text of a price or a quantity counts as the decimal that it denotes. No trade
-- arrives while the shadow executor is at work on a plan. The tokens of the venues' limiter are
-- counted in thousandths, so that a whole rate per second refills exactly, and its timers are
-- events: a timer may fire late, but once for each setting. The tokens of a shared budget are
-- counted in parts of one sixty-thousandth, and the hash that Redis keeps under a key is an entry
-- of a map.
--
-- Not modelled: messages of errors, console output, and everything that talks to a venue, a
-- database or the network (the rest of packages/venues and worker, db, boundary, market-data, and
-- the repository hooks that instrument-executor.ts falls back to), the strategies, and backtesting.
pub mod Prelude
pub mod Decimal
pub mod Result
pub mod Order
pub mod OrderManager
pub mod LifecycleManager
pub mod Position
pub mod Trackers
pub mod StopLoss
pub mod Planner
pub mod RiskGate
pub mod OrderUpdate
pub mod LiveRecovery
pub mod LiveTimeout
pub mod SwapPositions
pub mod Reconciliation
pub mod AgentRisk
pub mod CandleBreaker
pub mod Executors
pub mod DecisionIntake
pub mod InstrumentExecutor
pub mod InstanceLease
pub mod RateBudget
pub mod RateLimiter
mod Tests
