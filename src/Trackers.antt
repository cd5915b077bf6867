-- ===== src/Trackers.antt =====
-- The risk trackers of packages/engine/src: circuit-breaker.ts, daily-loss-tracker.ts,
-- equity-tracker.ts and fill-accounting.ts.
pub mod CircuitBreaker
pub mod DailyLoss
pub mod Equity
pub mod Accounting
