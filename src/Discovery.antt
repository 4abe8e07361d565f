-- ===== src/Discovery.antt =====
-- Runtime discovery in manager/config_store.py.
pub mod Writes
pub mod Ingest
pub mod Lists
mod Frames
mod Outcome
mod Again
mod Linked
mod Taken
mod Success
mod Raised
pub mod Tests
