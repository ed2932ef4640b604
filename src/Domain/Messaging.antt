-- ===== src/Domain/Messaging.antt =====
-- internal/domain/messaging: the messages that travel between channels and the application.
use omnichannel_booking_assi.Prelude.{String, Bool, Option, List}
use omnichannel_booking_assi.Prelude.Int.{ℤ}
use omnichannel_booking_assi.Prelude.Time.{Time}

-- `type Provider string`
abbrev pub Provider : Type 0
Provider = String

abbrev pub telegram : Provider
telegram = "telegram"

abbrev pub whatsapp : Provider
whatsapp = "whatsapp"

abbrev pub instagram : Provider
instagram = "instagram"

abbrev pub messenger : Provider
messenger = "messenger"

abbrev pub viber : Provider
viber = "viber"

-- `type ContentType string`
abbrev pub ContentType : Type 0
ContentType = String

abbrev pub content_text : ContentType
content_text = "text"

pub record Audio : Type 0 where
  pub reference : String
  pub mime_type : String
  pub filename : String
  pub size_bytes : ℤ
  pub duration_seconds : ℤ

pub record Content : Type 0 where
  pub type : ContentType
  pub text : String
  pub audio : Option Audio
  pub description : String

pub record Sender : Type 0 where
  pub display_name : String
  pub language : String
  pub username : String

pub record Envelope : Type 0 where
  pub provider : Provider
  pub external_message_id : String
  pub choice_message_id : String
  pub external_user_id : String
  pub external_thread_id : String
  pub sent_at : Time
  pub received_at : Time
  pub sender : Sender
  pub content : Content

-- A human message that was delivered outside the bot.
pub record ExternalReply : Type 0 where
  pub provider : Provider
  pub external_message_id : String
  pub external_thread_id : String
  pub content : Content
  pub sent_at : Time
  pub received_at : Time

pub record Choice : Type 0 where
  pub label : String

pub record Link : Type 0 where
  pub label : String
  pub url : String

-- The nil slice and the empty one are both `[]`.
pub record Outgoing : Type 0 where
  pub request_own_contact : Bool
  pub choice_token : String
  pub provider : Provider
  pub external_thread_id : String
  pub text : String
  pub choices : List Choice
  pub links : List Link
