-- ===== src/Scheduler.antt =====
-- The reminder scheduler, dragon_voice/scheduler.
pub mod Notification
pub mod Store
pub mod Parser
pub mod Memory
pub mod Sqlite
pub mod Delivery
pub mod Manager
mod Tests
