-- ===== src/Tests/Samples.antt =====
-- Sample data for the tests.
use omnichannel_booking_assi.Prelude.{Option, none, some, [], ◌∷◌, false, true}
use omnichannel_booking_assi.Prelude.Int.{pos}
use omnichannel_booking_assi.Prelude.Time.{hour}
use omnichannel_booking_assi.Domain.Errors.{ok}
use omnichannel_booking_assi.Domain.Messaging.{telegram, content_text, Outgoing}
use omnichannel_booking_assi.Domain.Booking as Booking
use omnichannel_booking_assi.Domain.Conversation as Conversation
use omnichannel_booking_assi.Domain.Reminder as Reminder
use omnichannel_booking_assi.Memory.Store as Store
use omnichannel_booking_assi.Memory.Conversations.{no_conversation}
use omnichannel_booking_assi.Reminders.Service as Service

abbrev pub thread : Conversation.Conversation
thread = record no_conversation {
  id = "c1";
  customer_id = "u1";
  provider = telegram;
  external_thread_id = "7";
  state = Conversation.assistant_active;
}

abbrev pub visit : Booking.Booking
visit = record {
  id = "b1";
  external_id = "x1";
  management_token = "";
  customer_id = "u1";
  service_ids = "s1" ∷ [];
  staff_id = "m1";
  customer_name = "Ani";
  service_names = "Cut" ∷ [];
  staff_name = "Mara";
  starts_at = 2000;
  duration = pos hour;
  status = Booking.confirmed;
  attended = false;
  no_show = false;
  treatment_duration = pos 0;
  created_at = 1;
}

abbrev pub notice : Reminder.Reminder
notice = record {
  id = "r1";
  booking_external_id = "x1";
  customer_id = "u1";
  conversation_id = "c1";
  provider = telegram;
  external_thread_id = "7";
  language = "en";
  expected_starts_at = 2000;
  due_at = 1000;
  status = Reminder.scheduled;
  created_at = 1;
  claim_id = "";
  claim_expires = 0;
  finished_at = 0;
}

abbrev pub empty_store : Store.Store
empty_store = record {
  customers = [];
  identities = [];
  profile_aliases = [];
  conversations = [];
  conversation_key_by_id = [];
  messages = [];
  processed = [];
  latest_turn = [];
  bookings = [];
  reminders = [];
  staff_threads = [];
  inbox_pages = [];
  processed_ttl = pos 100;
  claim_ttl = pos 10;
}

-- One appointment, with its reminder.
abbrev pub planned : Store.Store
planned = record empty_store { bookings = ("u1", visit ∷ []) ∷ []; reminders = ("r1", notice) ∷ [] }

abbrev pub reply_message : Conversation.Message
reply_message = record {
  id = "m1";
  conversation_id = "c1";
  direction = Conversation.outbound;
  content_type = content_text;
  text = "Hello";
  external_message_id = "e1";
  created_at = 5;
}

abbrev pub accept : Outgoing → Option omnichannel_booking_assi.Domain.Errors.Error
accept o = none

-- Telegram only; each clock shows 1500, past the time the reminder is due; all messages are accepted.
abbrev pub calm : Service.Env
calm = record {
  resolve_language = none;
  has_conversations = true;
  reader = none;
  senders = λ provider.
      some (record { templates = none; send = accept; send_reminder = λ o tag b url. none });
  schedule = λ task. none;
  lead_time = pos hour;
  hash_id = λ prefix value. prefix;
  format_time = λ t. "t";
  calendar_url = λ b lang. "";
  reminder_text = λ lang a. "See you";
  links = λ lang a. [];
  clock = λ n. 1500;
  new_id = λ n. "id";
}

abbrev pub start : Service.World
start = record { store = planned; sends = []; tasks = [] }

-- One appointment and no reminder.
abbrev pub booked : Store.Store
booked = record empty_store { bookings = ("u1", visit ∷ []) ∷ [] }
