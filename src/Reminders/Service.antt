-- ===== src/Reminders/Service.antt =====
-- internal/application/reminders/service.go: the collaborators of the service, the effects that a call
-- has, and `SupportsReminder` and `scheduleWake`.
use Prim.Native.Char.{nul}
use Prim.Native.String as Text
use omnichannel_booking_assi.Prelude.{
  ℕ, String, Bool, true, false, ◌&&◌, Option, none, some, List, [], ◌∷◌, ◌++◌, ◌==◌, if◌then◌else◌,
}
use omnichannel_booking_assi.Prelude.Time.{Time, Duration}
use omnichannel_booking_assi.Domain.Errors.{Error, Result, wrapped}
use omnichannel_booking_assi.Domain.Messaging.{Provider, Outgoing, Link, telegram, whatsapp}
use omnichannel_booking_assi.Domain.Booking.{Booking}
use omnichannel_booking_assi.Domain.Reminder.{Reminder}
use omnichannel_booking_assi.Memory.Store.{Store}
use omnichannel_booking_assi.Reminders.Language.{Language, Appointment, parse_language, tag_of}
use omnichannel_booking_assi.Reminders.Wake.{wake_at}

pub record Task : Type 0 where
  pub id : String
  pub reminder_id : String
  pub run_at : Time

-- A channel's sender. `templates` is its `SupportsReminder`, if it is a `TemplateSender`; the answers of
-- the provider are what the two calls return.
pub record Sender : Type 0 where
  pub templates : Option (String → Bool)
  pub send : Outgoing → Option Error
  pub send_reminder : Outgoing → String → Booking → String → Option Error

-- The collaborators of the service and their answers during one call. A channel has a sender that is
-- not nil, or none. `resolve_language`, `reader` and
-- the conversation repository may be absent; the repositories are those of `Memory`. `clock n` is the
-- n-th reading of the clock in the call, and `new_id n` the n-th identifier. `hash_id` is the SHA-256
-- digest under a prefix, `format_time` the RFC 3339 text; the renderer writes the message.
pub record Env : Type 0 where
  pub resolve_language : Option (Provider → String → String → Result String)
  pub has_conversations : Bool
  pub reader : Option (Booking → Result Booking)
  pub senders : Provider → Option Sender
  pub schedule : Task → Option Error
  pub lead_time : Duration
  pub hash_id : String → String → String
  pub format_time : Time → String
  pub calendar_url : Booking → Language → String
  pub reminder_text : Language → Appointment → String
  pub links : Language → Appointment → List Link
  pub clock : ℕ → Time
  pub new_id : ℕ → String

-- A message that was handed to a sender, and the sender's answer.
pub record Sending : Type 0 where
  pub message : Outgoing
  pub outcome : Option Error

-- The store, the messages handed to senders, and the tasks that the queue accepted.
pub record World : Type 0 where
  pub store : Store
  pub sends : List Sending
  pub tasks : List Task

abbrev is_some {ℓ} : {A : Type ℓ} → Option A → Bool
is_some none = false
is_some (some _) = true

abbrev supports_template : Option Sender → String → Bool
supports_template none tag = false
supports_template (some sender) tag = elim sender.templates [
  | none ↦ false
  | some supports ↦ supports tag
]

unfoldable pub supports_reminder : Env → Provider → String → Bool
supports_reminder env provider lang =
    if provider == telegram
    then is_some (env.senders provider)
    else provider == whatsapp
      && supports_template (env.senders provider) (tag_of (parse_language lang))

-- Two texts with a NUL byte between them.
unfoldable pub joined : String → String → String
joined s t = Text.◌++◌ s (String.◌∷◌ nul t)

unfoldable pub schedule_wake : Env → World → Reminder → Time → World × Option Error
schedule_wake env w r now =
    let run_at = wake_at r now in
    let task : Task = record {
      id = env.hash_id "reminder-task" (joined r.id (env.format_time run_at));
      reminder_id = r.id;
      run_at = run_at;
    } in
    elim (env.schedule task) [
      | some e ↦ (w, some (wrapped "schedule reminder wake" e))
      | none ↦ (record w { tasks = w.tasks ++ task ∷ [] }, none)
    ]
