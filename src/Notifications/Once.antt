-- ===== src/Notifications/Once.antt =====
-- The proof that no route of a notification is used twice (internal/application/notifications).
pub mod Kinds
pub mod Tokens
pub mod Changes
pub mod Checks
pub mod Consents
pub mod Sends
pub mod Calls
pub mod ConsentCalls
pub mod CheckCalls
pub mod Delivery
pub mod Deliver
pub mod Pool
