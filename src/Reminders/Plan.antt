-- ===== src/Reminders/Plan.antt =====
-- internal/application/reminders/service.go: `Plan` and `Reconcile`.
use omnichannel_booking_assi.Prelude.{
  ℕ, suc, ◌+◌, String, not, ◌&&◌, ◌||◌, Option, none, some, List, [], ◌∷◌, ◌++◌, ◌-◌, ◌==◌,
  if◌then◌else◌,
}
use omnichannel_booking_assi.Prelude.Int.{pos_part, neg_part}
use omnichannel_booking_assi.Prelude.Time.{Time, Duration, after}
use omnichannel_booking_assi.Domain.Errors.{Error, ok, err, wrapped}
use omnichannel_booking_assi.Domain.Messaging.{telegram}
use omnichannel_booking_assi.Domain.Booking.{Booking}
use omnichannel_booking_assi.Domain.Conversation.{Conversation}
use omnichannel_booking_assi.Domain.Reminder.{Reminder, scheduled, validate, terminal}
use omnichannel_booking_assi.Memory.Reminders.{
  ensure_reminder, find_reminder, list_scheduled_reminders,
}
use omnichannel_booking_assi.Reminders.Service.{
  Env, World, supports_reminder, schedule_wake, joined,
}

-- `t.Add(-d)`, not below the zero time.
abbrev pub add_neg : Time → Duration → Time
add_neg t d = t + neg_part d - pos_part d

unfoldable pub reminder_id : Env → Booking → String
reminder_id env b =
    env.hash_id "reminder" (joined b.id (joined b.external_id (env.format_time b.starts_at)))

-- The reminder of one exact appointment start.
unfoldable pub new_reminder : Env → Booking → Conversation → String → Time → Time → Reminder
unfolding reminder_id
new_reminder env b conv language due_at now = record {
  id = reminder_id env b;
  booking_external_id = b.external_id;
  customer_id = b.customer_id;
  conversation_id = conv.id;
  provider = conv.provider;
  external_thread_id = conv.external_thread_id;
  language = language;
  expected_starts_at = b.starts_at;
  due_at = due_at;
  status = scheduled;
  created_at = now;
  claim_id = "";
  claim_expires = 0;
  finished_at = 0;
}

-- The part of `Plan` behind `EnsureReminder`.
unfoldable pub schedule_stored : Env → World → String → Time → World × Option Error
unfolding schedule_wake terminal
schedule_stored env w id now = elim (find_reminder w.store id) [
  | err e ↦ (w, some (wrapped "plan reminder: read persisted reminder" e))
  | ok stored ↦ if terminal stored then (w, none) else schedule_wake env w stored now
]

-- The part of `Plan` behind `Validate`.
unfoldable pub ensure_and_schedule : Env → World → Reminder → Time → World × Option Error
unfolding schedule_stored
ensure_and_schedule env w r now =
    let (store, failure) = ensure_reminder w.store r in
    let w' = record w { store = store } in
    elim failure [
      | some e ↦ (w', some (wrapped "plan reminder" e))
      | none ↦ schedule_stored env w' r.id now
    ]

-- `Plan`; `n` is the number of its first clock reading.
unfoldable pub plan : Env → World → Booking → Conversation → String → ℕ → World × Option Error
unfolding new_reminder ensure_and_schedule
plan env w b conv language n =
    let due_at = add_neg b.starts_at env.lead_time in
    let r = new_reminder env b conv language due_at (env.clock (n + 1)) in
    if not (supports_reminder env conv.provider language)
      || not (conv.provider == telegram) && not conv.reminder_opt_in
    then (w, none)
    else if not (after due_at (env.clock n))
    then (w, none)
    else elim (validate r) [
      | some e ↦ (w, some (wrapped "plan reminder" e))
      | none ↦ ensure_and_schedule env w r (env.clock (n + 2))
    ]

-- What the loop of `Reconcile` has at hand: the world, the wakes that were scheduled, and the errors.
pub record Tally : Type 0 where
  pub world : World
  pub count : ℕ
  pub errors : List Error

-- The body of the loop.
unfoldable pub reconcile_one : Env → Reminder → Time → Tally → Tally
reconcile_one env r now t =
    let (w, failure) = schedule_wake env t.world r now in
    if not (supports_reminder env r.provider r.language)
      || not (after r.expected_starts_at now)
      || not (after r.due_at now)
    then t
    else elim failure [
      | some e ↦ record t { world = w; errors = t.errors ++ wrapped r.id e ∷ [] }
      | none ↦ record t { world = w; count = suc t.count }
    ]

unfoldable pub reconcile_each : Env → List Reminder → Time → Tally → Tally
unfolding reconcile_one
reconcile_each env [] now t = t
reconcile_each env (r ∷ rest) now t = reconcile_each env rest now (reconcile_one env r now t)

unfoldable pub reconcile : Env → World → Tally
unfolding reconcile_each
reconcile env w =
    reconcile_each env (list_scheduled_reminders w.store) (env.clock 0)
      (record { world = w; count = 0; errors = [] })
