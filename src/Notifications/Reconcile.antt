-- ===== src/Notifications/Reconcile.antt =====
-- internal/application/notifications: `Reconcile` of service.go, unrouted_recovery.go, and web_reminder.go.
use Prim.Native.String.{◌++◌}
use omnichannel_booking_assi.Prelude.{
  ℕ, ◌+◌, ◌-◌, ◌*◌, ◌%◌, String, Bool, true, false, not, ◌&&◌, ◌||◌, Option, none, some, List, [],
  ◌∷◌, ◌==◌, eqb, is_empty, if◌then◌else◌,
}
use omnichannel_booking_assi.Prelude.Time.{Time, after, before, minute, hour, day}
use omnichannel_booking_assi.Domain.Errors.{Result, ok, message, not_found, booking}
use omnichannel_booking_assi.Domain.Booking.{is_confirmed}
use omnichannel_booking_assi.Memory.Notifications.{get_notification, pending_notifications}
use omnichannel_booking_assi.Notifications.Entry.{Entry, Snapshot, empty_entry}
use omnichannel_booking_assi.Notifications.Routing.{booking_reminder}
use omnichannel_booking_assi.Notifications.Process.{
  World, Call, done, step, ◌>>=◌, ◌>>◌, then_do, nothing, fail,
}
use omnichannel_booking_assi.Notifications.Service.{
  Env, Change, key, now, get, query, transact, keep, put, schedule, fingerprint,
}
use omnichannel_booking_assi.Notifications.Sms.{join, reconcile_sms}
use omnichannel_booking_assi.Notifications.Health.{refresh}
use omnichannel_booking_assi.Notifications.Deliver.{read_booking}

-- `t.Truncate(d)`
abbrev pub truncate : Time → ℕ → Time
truncate t d = t - t % d

abbrev pub no_texts : List String → Bool
no_texts [] = true
no_texts (_ ∷ _) = false

-- A notice for which no route existed, and no send was begun.
unfoldable pub is_unrouted : Entry → Bool
is_unrouted row =
    row.state == "done" && row.outcome == "no_linked_messenger" && no_texts row.attempted

abbrev pub is_recent : Entry → Time → Bool
is_recent row at = not (before row.event.received_at (at - day))

abbrev pub reopened : Entry → Entry
reopened row = record row { state = "prepared"; outcome = "" }

-- The transaction of `reconcileUnrouted`.
unfoldable pub reopen_unrouted : String → Change Bool
unfolding get_notification is_unrouted
reopen_unrouted name at rows =
    let row = get_notification name rows in
    if is_unrouted row && not (after row.lease_until at)
    then put true name (reopened row) rows
    else keep false rows

unfoldable pub recover_unrouted : Env → Entry → Call (Unit {0})
unfolding reopen_unrouted key schedule
recover_unrouted env row = do
  ready ←
      transact env (key env "event" row.event.id ∷ [])
        (reopen_unrouted (key env "event" row.event.id))
  at ← now
  if ready
      then schedule env row.event.id ("unrouted:" ++ env.format_time (truncate at (5 * minute)))
      else nothing

unfoldable pub recover_each : Env → List Entry → Result (Unit {0}) → Call (Unit {0})
unfolding recover_unrouted is_unrouted
recover_each env [] result = done result
recover_each env (row ∷ rows) result =
    let rest = recover_each env rows in
    now >>= λ at.
    if not (row.kind == "event") || not (is_unrouted row) || not (is_recent row at)
    then rest result
    else then_do (recover_unrouted env row) (λ r. rest (join result r))

-- `reconcileUnrouted`; only some repositories have `UnroutedNotifications`.
unfoldable pub reconcile_unrouted : Env → Option (World → Result (List Entry)) → Call (Unit {0})
unfolding recover_each
reconcile_unrouted env none = nothing
reconcile_unrouted env (some unrouted) =
    step (λ w. w) (λ w. done (unrouted w)) >>= λ rows. recover_each env rows (ok tt)

abbrev pub needs_task : Entry → Time → Bool
needs_task row at = row.kind == "event" && not (after row.lease_until at)

unfoldable pub reschedule_each : Env → List Entry → Result (Unit {0}) → Call (Unit {0})
unfolding schedule
reschedule_each env [] result = done result
reschedule_each env (row ∷ rows) result =
    let rest = reschedule_each env rows in
    now >>= λ at.
    if not (needs_task row at)
    then rest result
    else then_do (schedule env row.event.id ("recovery:" ++ env.format_time (truncate at hour)))
        (λ r. rest (join result r))

abbrev pub refresh_if_any : Env → Call (Unit {0})
refresh_if_any env = elim env.health [ none ↦ nothing | some guard ↦ refresh env guard ]

-- `Reconcile`
unfoldable pub reconcile : Env → Option (World → Result (List Entry)) → Call (Unit {0})
unfolding reconcile_unrouted reschedule_each reconcile_sms refresh pending_notifications
reconcile env unrouted = then_do (reconcile_unrouted env unrouted) (λ first.
    query env pending_notifications >>= λ entries.
    then_do (reschedule_each env entries first) (λ second.
      then_do (reconcile_sms env)
        (λ third. then_do (refresh_if_any env) (λ fourth. done (join (join second third) fourth)))))

abbrev pub is_choice : ℕ → Bool
is_choice minutes = eqb minutes 60 || eqb minutes 120 || eqb minutes 1440

-- The worker's proof belongs to the record and the number.
unfoldable pub is_proven : Entry → String → String → Bool
is_proven row phone proof =
    not (is_empty proof)
    && row.management_phone == phone
    && row.calendar_phone == phone
    && row.management_token == proof

abbrev pub due_at : Snapshot → ℕ → Time
due_at snap minutes = snap.booking.starts_at - minutes * minute

unfoldable pub is_due : Snapshot → String → ℕ → Time → Bool
is_due snap phone minutes at =
    snap.phone == phone
    && is_confirmed snap.booking.status
    && after snap.booking.starts_at at
    && not (before at (due_at snap minutes))
    && not (after at (due_at snap minutes + 15 * minute))

unfoldable pub web_reminder_id : Env → String → Snapshot → ℕ → String
unfolding fingerprint
web_reminder_id env record_id snap minutes = env.name_id (
    "web-reminder:"
    ++ record_id
    ++ ":"
    ++ fingerprint env snap
    ++ ":"
    ++ env.format_time (due_at snap minutes))

abbrev pub reminder_event : Env → String → String → Snapshot → Time → Entry
reminder_event env id record_id snap at = record empty_entry {
  kind = "event";
  state = "prepared";
  event = record { id = id; record_id = record_id; status = "reminder"; received_at = at };
  notice = record {
    id = id;
    snapshot = snap;
    purpose = booking_reminder;
    fingerprint = fingerprint env snap;
  };
  updated_at = at;
}

unfoldable pub add_reminder : Env → String → String → String → Snapshot → Change (Unit {0})
unfolding get_notification fingerprint
add_reminder env name id record_id snap at rows =
    if (get_notification name rows).kind == ""
    then put tt name (reminder_event env id record_id snap at) rows
    else keep tt rows

abbrev pub queue_due : Env → String → Snapshot → ℕ → Call (Unit {0})
queue_due env record_id snap minutes = do
  let id = web_reminder_id env record_id snap minutes
  transact env (key env "event" id ∷ []) (add_reminder env (key env "event" id) id record_id snap)
  schedule env id "initial"

-- `QueueWebReminder`
unfoldable pub queue_web_reminder : Env → String → String → String → ℕ → Call (Unit {0})
unfolding is_proven is_due web_reminder_id add_reminder key schedule
queue_web_reminder env record_id phone proof minutes =
    if not (is_choice minutes)
    then fail (message "invalid reminder choice")
    else get env (key env "record" record_id) >>= λ row.
        if not (is_proven row phone proof)
        then fail (not_found booking)
        else read_booking env record_id >>= λ snap. now >>= λ at.
            if is_due snap phone minutes at
            then queue_due env record_id snap minutes
            else fail (not_found booking)
