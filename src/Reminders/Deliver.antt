-- ===== src/Reminders/Deliver.antt =====
-- internal/application/reminders/service.go: `Deliver`, which a task of the queue calls at least once.
use Prim.Native.String as Text
use omnichannel_booking_assi.Prelude.{
  ℕ, ◌*◌, String, Bool, true, false, not, Option, none, some, List, [], ◌∷◌, ◌++◌, ◌==◌,
  if◌then◌else◌,
}
use omnichannel_booking_assi.Prelude.Int.{pos}
use omnichannel_booking_assi.Prelude.Time.{Time, after, add, minute}
use omnichannel_booking_assi.Domain.Errors.{Error, ok, err, wrapped, message, delivery_busy}
use omnichannel_booking_assi.Domain.Messaging.{Outgoing, telegram, whatsapp, content_text}
use omnichannel_booking_assi.Domain.Outgoing.{with_links}
use omnichannel_booking_assi.Domain.Booking.{Booking}
use omnichannel_booking_assi.Domain.Conversation.{Message, outbound}
use omnichannel_booking_assi.Domain.Reminder.{Reminder, Status, sent, skipped, terminal}
use omnichannel_booking_assi.Memory.Reminders.{
  find_reminder, claim_reminder, finish_reminder, release_reminder,
}
use omnichannel_booking_assi.Memory.Conversations.{find_by_id}
use omnichannel_booking_assi.Memory.Transcript.{append}
use omnichannel_booking_assi.Reminders.Language.{Language, Appointment, parse_language, tag_of}
use omnichannel_booking_assi.Reminders.Service.{
  Env, World, Sender, supports_reminder, schedule_wake,
}
use omnichannel_booking_assi.Reminders.Current.{current_booking}

abbrev pub claim_duration : ℕ
claim_duration = 5 * minute

-- `finish`
unfoldable pub finish : World → Reminder → String → Status → Time → World × Option Error
finish w r claim_id status at =
    let (store, failure) = finish_reminder w.store r.id claim_id status at in
    (
      record w { store = store },
      elim failure [ none ↦ none | some e ↦ some (wrapped "finish reminder" e) ],
    )

-- The texts of the appointment in the message.
abbrev pub join_names : List String → String
join_names [] = ""
join_names (n ∷ []) = n
join_names (n ∷ m ∷ rest) = Text.◌++◌ n (Text.◌++◌ ", " (join_names (m ∷ rest)))

unfoldable pub appointment_of : Env → Booking → Language → Appointment
appointment_of env b lang = record {
  calendar_url = env.calendar_url b lang;
  customer_name = b.customer_name;
  starts_at = b.starts_at;
  service = join_names b.service_names;
  specialist = b.staff_name;
  reference = b.external_id;
}

unfoldable pub outgoing_of : Env → Reminder → Booking → Outgoing
unfolding appointment_of with_links
outgoing_of env r b =
    let lang = parse_language r.language in
    let appointment = appointment_of env b lang in
    with_links
      (record {
        request_own_contact = false;
        choice_token = "";
        provider = r.provider;
        external_thread_id = r.external_thread_id;
        text = env.reminder_text lang appointment;
        choices = [];
        links = [];
      })
      (env.links lang appointment)

-- The sender's answer: a template on WhatsApp, if the sender has them.
abbrev pub answer : Env → Sender → Reminder → Booking → Outgoing → Option Error
answer env sender r b outgoing =
    let lang = parse_language r.language in
    elim sender.templates [
      | none ↦ sender.send outgoing
      | some _ ↦
          if r.provider == whatsapp
          then sender.send_reminder outgoing (tag_of lang) b (env.calendar_url b lang)
          else sender.send outgoing
    ]

-- The transcript's record of a reminder that was sent.
abbrev pub record_of : Env → Reminder → Outgoing → Time → Message
record_of env r outgoing now = record {
  id = env.new_id 1;
  conversation_id = r.conversation_id;
  direction = outbound;
  content_type = content_text;
  text = outgoing.text;
  external_message_id = "";
  created_at = now;
}

-- How a delivery goes on after its claim: the world, whether the claim is still to be released, and the
-- error.
pub record Progress : Type 0 where
  pub world : World
  pub unreleased : Bool
  pub failure : Option Error

-- Without a claim to release: `release = false; return s.finish(…, StatusSkipped, now)`.
unfoldable pub skip : World → Reminder → String → Time → Progress
unfolding finish
skip w r claim_id now =
    let (w', failure) = finish w r claim_id skipped now in
    record { world = w'; unreleased = false; failure = failure }

-- A return before `release = false`.
abbrev pub give_up : World → Error → Progress
give_up w e = record { world = w; unreleased = true; failure = some e }

-- The message is out: errors of what follows are logged.
unfoldable pub record_sent : Env → World → Reminder → String → Outgoing → Time → Progress
unfolding finish
record_sent env w r claim_id outgoing now =
    let w' = (finish w r claim_id sent now).0 in
    record {
      world = record w' { store = append w'.store (record_of env r outgoing now) };
      unreleased = false;
      failure = none;
    }

unfoldable pub send_to : Env → World → Sender → Reminder → String → Booking → Time → Progress
unfolding outgoing_of record_sent
send_to env w sender r claim_id b now =
    let outgoing = outgoing_of env r b in
    let outcome = answer env sender r b outgoing in
    let w' = record w {
      sends = w.sends ++ record { message = outgoing; outcome = outcome } ∷ [];
    } in
    elim outcome [
      | some e ↦ give_up w' (wrapped "deliver reminder: send" e)
      | none ↦ record_sent env w' r claim_id outgoing now
    ]

-- From `currentBooking` on.
unfoldable pub deliver_current : Env → World → Reminder → String → Time → Progress
unfolding current_booking skip send_to
deliver_current env w r claim_id now =
    let (w', found) = current_booking env w r in
    elim found [
      | err e ↦ give_up w' (wrapped "deliver reminder: read booking" e)
      | ok none ↦ skip w' r claim_id now
      | ok (some b) ↦ elim (env.senders r.provider) [
        | none ↦ give_up w' (message "deliver reminder: no sender configured")
        | some sender ↦ send_to env w' sender r claim_id b now
      ]
    ]

-- The consent that a channel other than Telegram needs.
unfoldable pub deliver_consented : Env → World → Reminder → String → Time → Progress
unfolding deliver_current skip
deliver_consented env w r claim_id now =
    if r.provider == telegram
    then deliver_current env w r claim_id now
    else if not env.has_conversations
    then give_up w (message "reminder consent repository unavailable")
    else elim (find_by_id w.store r.conversation_id) [
      | err e ↦ give_up w e
      | ok conv ↦
          if conv.reminder_opt_in
          then deliver_current env w r claim_id now
          else skip w r claim_id now
    ]

unfoldable pub deliver_supported : Env → World → Reminder → String → Time → Progress
unfolding deliver_consented skip
deliver_supported env w r claim_id now =
    if supports_reminder env r.provider r.language
    then deliver_consented env w r claim_id now
    else skip w r claim_id now

-- What a delivery does with the reminder that it has claimed.
unfoldable pub deliver_claimed : Env → World → Reminder → String → Time → Progress
unfolding deliver_supported
deliver_claimed env w r claim_id now = elim env.resolve_language [
  | none ↦ deliver_supported env w r claim_id now
  | some resolve ↦ elim (resolve r.provider r.external_thread_id r.language) [
    | err e ↦ give_up w e
    | ok lang ↦ deliver_supported env w (record r { language = lang }) claim_id now
  ]
]

-- The deferred release; its error is logged.
unfoldable pub settle : Progress → String → String → World × Option Error
settle p reminder_id claim_id =
    if p.unreleased
    then (
      record p.world { store = (release_reminder p.world.store reminder_id claim_id).0 },
      p.failure,
    )
    else (p.world, p.failure)

-- From the claim on.
unfoldable pub deliver_due : Env → World → Reminder → Time → World × Option Error
unfolding deliver_claimed settle
deliver_due env w r now =
    let claim_id = env.new_id 0 in
    let (store, result) = claim_reminder w.store r.id claim_id now (add now (pos claim_duration)) in
    let w' = record w { store = store } in
    elim result [
      | err e ↦ (w', some (wrapped "deliver reminder: claim" e))
      | ok (claimed, owned) ↦
          if owned
          then settle (deliver_claimed env w' claimed claim_id now) claimed.id claim_id
          else (w', if terminal claimed then none else some delivery_busy)
    ]

-- `Deliver`
unfoldable pub deliver : Env → World → String → World × Option Error
unfolding deliver_due
deliver env w reminder_id =
    let now = env.clock 0 in
    elim (find_reminder w.store reminder_id) [
      | err e ↦ (w, some (wrapped "deliver reminder" e))
      | ok r ↦
          if terminal r
          then (w, none)
          else if after r.due_at now
          then schedule_wake env w r now
          else deliver_due env w r now
    ]
