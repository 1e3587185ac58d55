-- ===== src/Signals.antt =====
-- semi_intel/signals: signal sources and signal candidates.
pub mod Source
pub mod Admission
pub mod Watermark
pub mod Registry
pub mod Lifecycle
pub mod Independence
pub mod Aging
pub mod Origins
mod Tests
