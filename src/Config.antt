-- ===== src/Config.antt =====
-- The canonical service model, gateway/model.py.
pub mod Fields
pub mod Service
pub mod Legacy
pub mod Normalize
pub mod Canonical
pub mod Sound
pub mod Letters
pub mod RoundTrip
pub mod Tests
pub mod Groups
pub mod Idempotent
