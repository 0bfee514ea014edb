-- ===== src/Compliance.antt =====
-- backend/app/services/compliance_service.py, one module for each group of its methods.
pub mod Whitelist
pub mod Ipguard
pub mod Scope
pub mod Device
pub mod Check
pub mod Firewall
pub mod Entries
pub mod Work
pub mod Reasons
pub mod Unblock
pub mod Block
pub mod Settings
pub mod Sweep
pub mod Counts
pub mod Apply
pub mod Recalc
pub mod Initial
pub mod Batch
