-- ===== src/Notifications.antt =====
-- semi_intel/notifications: notifications, their delivery, and incidents of providers.
pub mod Attempt
pub mod Delivery
pub mod Emission
pub mod Incidents
pub mod Crossings
mod Tests
