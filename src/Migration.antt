-- ===== src/Migration.antt =====
-- The migration of an asset, manager/scan_orchestrator.py.
pub mod Request
pub mod Paths
pub mod Authorized
pub mod Command
pub mod Job
pub mod Runnable
pub mod Ended
pub mod Service
pub mod Assess
pub mod Promote
pub mod Plans
pub mod Run
pub mod Rates
pub mod Gate
pub mod Leaves
pub mod Settled
pub mod Hybrid
pub mod Created
pub mod Once
mod Tests
mod Trial
mod Promotion
mod Scan
