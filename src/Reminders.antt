-- ===== src/Reminders.antt =====
-- The reminder service (internal/application/reminders): when a reminder's task wakes up, how a
-- reminder is planned, and how it is delivered. It runs on the repository of `Memory`.
pub mod Wake
pub mod Language
pub mod Service
pub mod Plan
pub mod Current
pub mod Deliver
pub mod Sending
