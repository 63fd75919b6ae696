-- ===== src/Lifecycle.antt =====
-- Task execution leases and write ownership, rust/ovca-runtime-core/src/execution_lifecycle.rs.
pub mod State
pub mod Init
pub mod Claim
pub mod Heartbeat
pub mod Release
pub mod Terminal
pub mod Commands
pub mod Invariant
pub mod Ending
pub mod Budget
pub mod Safety
pub mod Attempts
pub mod Dependencies
pub mod Total
pub mod Restore
mod Examples
