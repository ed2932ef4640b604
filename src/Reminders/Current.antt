-- ===== src/Reminders/Current.antt =====
-- internal/application/reminders/service.go: `currentBooking`.
use omnichannel_booking_assi.Prelude.{
  Bool, true, false, not, ◌&&◌, Option, none, some, eqb, if◌then◌else◌,
}
use omnichannel_booking_assi.Prelude.Time.{Time, after}
use omnichannel_booking_assi.Domain.Errors.{Error, Result, ok, err, not_found, cause, booking}
use omnichannel_booking_assi.Domain.Booking.{Booking, is_confirmed}
use omnichannel_booking_assi.Domain.Conversation.{Conversation}
use omnichannel_booking_assi.Domain.Reminder.{Reminder}
use omnichannel_booking_assi.Memory.Conversations.{find_by_id, no_conversation}
use omnichannel_booking_assi.Memory.Bookings.{list_bookings, find_in, save_booking}
use omnichannel_booking_assi.Reminders.Service.{Env, World}
use omnichannel_booking_assi.Reminders.Plan.{plan}

-- `errors.Is(err, booking.ErrNotFound)`
abbrev pub is_missing_booking : Error → Bool
is_missing_booking (not_found booking) = true
is_missing_booking _ = false

-- The last line of `currentBooking`; the clock is read anew.
abbrev pub is_current : Booking → Reminder → Time → Bool
is_current b r now =
    is_confirmed b.status && eqb b.starts_at r.expected_starts_at && after b.starts_at now

-- The conversation for the plan of a moved appointment.
abbrev pub conversation_of : Env → World → Reminder → Result Conversation
conversation_of env w r =
    if env.has_conversations
    then find_by_id w.store r.conversation_id
    else ok (record no_conversation {
      id = r.conversation_id;
      customer_id = r.customer_id;
      provider = r.provider;
      external_thread_id = r.external_thread_id;
    })

-- A moved appointment has its new reminder planned.
unfoldable pub replan : Env → World → Booking → Reminder → World × Option Error
replan env w b r = elim (conversation_of env w r) [
  | err e ↦ (w, some e)
  | ok conv ↦ plan env w b conv r.language 1
]

-- The live booking was read and is saved.
unfoldable pub refreshed : Env → World → Booking → Reminder → World × Result (Booking × Bool)
unfolding replan
refreshed env w b r =
    let w' = record w { store = save_booking w.store b } in
    let (moved, failure) = replan env w' b r in
    if is_confirmed b.status && not (eqb b.starts_at r.expected_starts_at)
    then elim failure [
      | some e ↦ (moved, err e)
      | none ↦ (moved, ok (b, is_current b r (env.clock 4)))
    ]
    else (w', ok (b, is_current b r (env.clock 4)))

-- The body of the loop of `currentBooking`, at the booking of the reminder.
unfoldable pub read_live : Env → World → Booking → Reminder → World × Result (Booking × Bool)
unfolding refreshed
read_live env w b r =
    let stored : World × Result (Booking × Bool) = (w, ok (b, is_current b r (env.clock 4))) in
    elim env.reader [
      | none ↦ stored
      | some read ↦
          if is_confirmed b.status
          then elim (read b) [
            | err e ↦ (w, if is_missing_booking (cause e) then ok (b, false) else err e)
            | ok fresh ↦ refreshed env w fresh r
          ]
          else stored
    ]

abbrev pub if_current : Result (Booking × Bool) → Result (Option Booking)
if_current (err e) = err e
if_current (ok (b, true)) = ok (some b)
if_current (ok (b, false)) = ok none

-- `currentBooking`: the booking if it is current; the caller does not read it otherwise.
unfoldable pub current_booking : Env → World → Reminder → World × Result (Option Booking)
unfolding read_live
current_booking env w r =
    elim (find_in (list_bookings w.store r.customer_id) r.booking_external_id) [
      | none ↦ (w, ok none)
      | some b ↦ let (w', found) = read_live env w b r in (w', if_current found)
    ]
