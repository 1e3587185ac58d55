-- ===== src/Candidates.antt =====
-- semi_intel/signals: the state of a signal candidate and its reviews.
pub mod State
pub mod Review
pub mod Promotion
mod Tests
