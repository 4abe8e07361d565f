-- ===== src/Store.antt =====
-- The SQLite store of the control plane, manager/config_store.py. A method that is one transaction
-- is a function into `Result`: where it raises, the transaction is rolled back and there is no new
-- store. Lists that only grow are kept newest first, so `ORDER BY id DESC` is their own order.
pub mod Rows
pub mod Tables
pub mod Releases
pub mod Resources
pub mod Documents
pub mod Metrics
pub mod Scans
pub mod Inventory
pub mod Lists
pub mod Summary
pub mod Publish
mod Tests
