-- ===== src/Reconciliation.antt =====
-- packages/engine/src/reconciliation/reconcile.ts: the local state against the venue's.
pub mod State
pub mod Compare
pub mod Thresholds
pub mod Positions
pub mod Severity
