-- ===== src/Memory/Pages.antt =====
-- internal/application/staffinbox: the types of the staff inbox, and its bounds.
use omnichannel_booking_assi.Prelude.{ℕ, String, Option, List}
use omnichannel_booking_assi.Prelude.Time.{Time}
use omnichannel_booking_assi.Domain.Conversation.{Conversation, Message}

abbrev pub conversation_limit : ℕ
conversation_limit = 8

abbrev pub history_limit : ℕ
history_limit = 5

-- The last conversation of a page, as it was shown.
pub record Cursor : Type 0 where
  pub last_message_at : Time
  pub key : String

pub record Conversations : Type 0 where
  pub items : List Conversation
  pub next : Option Cursor

-- The messages in reading order.
pub record History : Type 0 where
  pub messages : List Message
  pub before : String

pub record Page : Type 0 where
  pub id : String
  pub chat_id : String
  pub conversation_id : String
  pub next_conversations : Option Cursor
  pub history_before : String
  pub history_start : String
  pub previous_page_id : String
  pub expires_at : Time
