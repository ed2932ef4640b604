-- ===== src/Assistant.antt =====
-- The assistant (internal/application/assistant), as far as colleagues take part in a conversation.
pub mod Lock
pub mod Staff
pub mod Commands
