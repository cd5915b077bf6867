-- ===== src/Tests.antt =====
-- Runs of the modelled code on small inputs.
mod Samples
mod Orders
mod Positions
mod Execution
mod Recovery
mod Reconciling
mod Limits
mod Intake
mod Executing
mod Venue
mod Budgets
mod Leases
