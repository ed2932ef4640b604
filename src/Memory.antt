-- ===== src/Memory.antt =====
-- The in-process store (internal/adapters/persistence/memory). `Store` holds the state; each
-- other child has the methods on one group of its maps, and children of its own for the proofs.
-- The mutex makes each method one atomic step, so a method is a function on the store.
pub mod Pages
pub mod Store
pub mod Reminders
pub mod Customers
pub mod Conversations
pub mod Transcript
pub mod Bookings
pub mod Deliveries
pub mod Staff
pub mod Profiles
pub mod Inbox
pub mod Notifications
