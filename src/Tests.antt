-- ===== src/Tests.antt =====
-- Runs of the model, and the theorems at concrete inputs.
mod Samples
mod Addresses
mod Checks
mod Applied
mod Purges
mod Rules
mod ScopeRuns
mod Recalcs
mod Reconciles
mod Logins
mod Expiries
mod Batches
mod Sweeps
