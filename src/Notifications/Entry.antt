-- ===== src/Notifications/Entry.antt =====
-- The types of internal/application/notifications/service.go and verification.go that are stored, and
-- internal/domain/messaging/channel_health.go.
use Prim.Native.String as Text
use omnichannel_booking_assi.Prelude.{
  ℕ, String, Bool, true, false, not, ◌||◌, none, some, List, [], is_empty, if◌then◌else◌,
}
use omnichannel_booking_assi.Prelude.Dict.{Dict, lookup}
use omnichannel_booking_assi.Prelude.Time.{Time}
use omnichannel_booking_assi.Domain.Booking.{Booking, Status}
use omnichannel_booking_assi.Notifications.Routing.{Channel, Purpose, other, other_purpose}

pub record ChannelHealth : Type 0 where
  pub known : Bool
  pub blocked : Bool
  pub proactive_paused : Bool
  pub templates_known : Bool
  pub templates : Dict Bool
  pub checked_at : Time

-- `ChannelHealth.Allows`
unfoldable pub allows : ChannelHealth → String → String → Bool
allows h template language =
    if h.blocked
    then false
    else if is_empty template
    then true
    else if h.proactive_paused
    then false
    else elim (lookup (Text.◌++◌ template (Text.◌++◌ ":" language)) h.templates) [
      | none ↦ true
      | some approved ↦ approved
    ]

pub record Event : Type 0 where
  pub id : String
  pub record_id : String
  pub status : String
  pub received_at : Time

pub record Snapshot : Type 0 where
  pub booking : Booking
  pub phone : String
  pub changed_at : Time
  pub api_id : String
  pub online : Bool
  pub attended : Bool

pub record Contact : Type 0 where
  pub chat : String
  pub phone : String
  pub language : String
  pub channel : Channel
  pub requested_at : Time
  pub expires_at : Time
  pub blocked : Bool

pub record Notice : Type 0 where
  pub id : String
  pub snapshot : Snapshot
  pub purpose : Purpose
  pub fingerprint : String

-- A byte slice is a text of bytes.
pub record PhoneChallenge : Type 0 where
  pub phone : String
  pub hash : String
  pub state : String
  pub expires_at : Time
  pub next_send_at : Time
  pub window_started : Time
  pub sends : ℕ
  pub attempts : ℕ
  pub contact_message_id : String

pub record Entry : Type 0 where
  pub health : ChannelHealth
  pub verification : PhoneChallenge
  pub kind : String
  pub state : String
  pub event : Event
  pub contact : Contact
  pub notice : Notice
  pub fingerprint : String
  pub changed_at : Time
  pub lease_owner : String
  pub lease_until : Time
  pub order : String
  pub outcome : String
  pub attempted : List String
  pub updated_at : Time
  pub session_ciphertext : String
  pub next_lookup_at : Time
  pub provider_state : String
  pub sms_failure_alerted_at : Time
  pub calendar_id : String
  pub calendar_phone : String
  pub management_token : String
  pub management_phone : String
  pub confirmation_channel : Channel
  pub operator_paused : Bool
  pub operator_pause_reason : String

-- The zero values of Go.
abbrev pub empty_health : ChannelHealth
empty_health = record {
  known = false;
  blocked = false;
  proactive_paused = false;
  templates_known = false;
  templates = [];
  checked_at = 0;
}

abbrev pub empty_challenge : PhoneChallenge
empty_challenge = record {
  phone = "";
  hash = "";
  state = "";
  expires_at = 0;
  next_send_at = 0;
  window_started = 0;
  sends = 0;
  attempts = 0;
  contact_message_id = "";
}

abbrev pub empty_event : Event
empty_event = record { id = ""; record_id = ""; status = ""; received_at = 0 }

abbrev pub empty_booking : Booking
empty_booking = record {
  id = "";
  external_id = "";
  management_token = "";
  customer_id = "";
  service_ids = [];
  staff_id = "";
  customer_name = "";
  service_names = [];
  staff_name = "";
  starts_at = 0;
  duration = omnichannel_booking_assi.Prelude.Int.ℤ.pos 0;
  status = Status.other "";
  attended = false;
  no_show = false;
  treatment_duration = omnichannel_booking_assi.Prelude.Int.ℤ.pos 0;
  created_at = 0;
}

abbrev pub empty_snapshot : Snapshot
empty_snapshot = record {
  booking = empty_booking;
  phone = "";
  changed_at = 0;
  api_id = "";
  online = false;
  attended = false;
}

abbrev pub empty_contact : Contact
empty_contact = record {
  chat = "";
  phone = "";
  language = "";
  channel = other "";
  requested_at = 0;
  expires_at = 0;
  blocked = false;
}

abbrev pub empty_notice : Notice
empty_notice = record {
  id = "";
  snapshot = empty_snapshot;
  purpose = other_purpose "";
  fingerprint = "";
}

abbrev pub empty_entry : Entry
empty_entry = record {
  health = empty_health;
  verification = empty_challenge;
  kind = "";
  state = "";
  event = empty_event;
  contact = empty_contact;
  notice = empty_notice;
  fingerprint = "";
  changed_at = 0;
  lease_owner = "";
  lease_until = 0;
  order = "";
  outcome = "";
  attempted = [];
  updated_at = 0;
  session_ciphertext = "";
  next_lookup_at = 0;
  provider_state = "";
  sms_failure_alerted_at = 0;
  calendar_id = "";
  calendar_phone = "";
  management_token = "";
  management_phone = "";
  confirmation_channel = other "";
  operator_paused = false;
  operator_pause_reason = "";
}
