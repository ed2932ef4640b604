-- ===== src/Reminders/Sending.antt =====
-- What a delivery does to its reminder and to the customer: sent, skipped, or given back.
pub mod Keeps
pub mod Evolves
pub mod Ends
pub mod Delivery
pub mod Once
