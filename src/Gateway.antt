-- ===== src/Gateway.antt =====
-- The renderer of the data plane, gateway/renderer.py, and its adapters.
pub mod Text
pub mod Lines
pub mod Http
pub mod Stream
pub mod Registry
pub mod Render
mod Tests
