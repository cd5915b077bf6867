-- ===== src/OrderManager.antt =====
-- packages/engine/src/order-manager.ts.
pub mod State
pub mod Operations
pub mod Fill
pub mod Queries
pub mod History
pub mod Soundness
pub mod Calls
pub mod Invariant
pub mod Cases
pub mod Pruning
pub mod Effects
pub mod Failures
pub mod Moves
pub mod Trace
pub mod Totals
pub mod Conservation
pub mod Acceptance
