-- ===== src/Supervision.antt =====
-- crates/supervision: how a child is to be supervised.
pub mod Intensity
pub mod Config
mod Tests
