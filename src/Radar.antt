-- ===== src/Radar.antt =====
-- src/oem_radar/core: the crawler's core.
pub mod RunLock
pub mod Feedback
mod Tests
