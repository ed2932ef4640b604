-- ===== src/Tests.antt =====
-- The properties at concrete inputs that meet their hypotheses, and runs of the model.
mod Samples
mod Domain
mod Memory
mod Inbox
mod Deliveries
mod Reminders
mod Notifications
mod Worker
mod Cabinet
mod Staff
