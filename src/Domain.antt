-- ===== src/Domain.antt =====
-- The domain packages (internal/domain), one child module for each; messaging has three.
pub mod Errors
pub mod Rules
pub mod Messaging
pub mod Envelope
pub mod Outgoing
pub mod Customer
pub mod Phone
pub mod Reminder
pub mod Booking
pub mod Conversation
