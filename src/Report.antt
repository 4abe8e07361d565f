-- ===== src/Report.antt =====
-- Reports of runtime agents, manager/runtime_ingest.py.
pub mod Types
pub mod Texts
pub mod Bounded
pub mod Processes
pub mod Observations
pub mod Documents
pub mod Normalize
pub mod Inventory
pub mod Normal
mod Sizes
pub mod Accepted
mod Limits
mod Unchanged
pub mod Tests
