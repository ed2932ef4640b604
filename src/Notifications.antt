-- ===== src/Notifications.antt =====
-- The notifications of appointments made outside the assistant (internal/application/notifications).
pub mod Routing
pub mod Entry
pub mod Process
pub mod Service
pub mod Attempts
pub mod Health
pub mod Prepare
pub mod Recipients
pub mod Deliver
pub mod Contacts
pub mod Receipts
pub mod Sms
pub mod Reconcile
pub mod Once
pub mod Requests
