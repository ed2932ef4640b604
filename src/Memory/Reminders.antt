-- ===== src/Memory/Reminders.antt =====
-- internal/adapters/persistence/memory/store.go: `EnsureReminder` to `ReleaseReminder`.
pub mod Contract
pub mod Steps
pub mod Lease
pub mod Finish
pub mod Own
use omnichannel_booking_assi.Prelude.{
  String, Bool, true, false, not, ◌&&◌, ◌||◌, Option, none, some, List, [], ◌∷◌, filter, ◌==◌,
  if◌then◌else◌,
}
use omnichannel_booking_assi.Prelude.Dict.{lookup, insert, values}
use omnichannel_booking_assi.Prelude.Time.{Time, after}
use omnichannel_booking_assi.Domain.Errors.{Error, Result, ok, err, not_found, message, Entity}
use omnichannel_booking_assi.Domain.Reminder.{
  Reminder, Status, scheduled, delivering, is_scheduled, is_delivering, is_final, validate,
  terminal,
}
use omnichannel_booking_assi.Memory.Store.{Store}

-- A method with the one result `error` returns the store and the error.
unfoldable pub ensure_reminder : Store → Reminder → Store × Option Error
unfolding validate
ensure_reminder s candidate = elim (validate candidate) [
  | some e ↦ (s, some e)
  | none ↦ elim (lookup candidate.id s.reminders) [
    | some _ ↦ (s, none)
    | none ↦ (record s { reminders = insert candidate.id candidate s.reminders }, none)
  ]
]

unfoldable pub find_reminder : Store → String → Result Reminder
find_reminder s reminder_id = elim (lookup reminder_id s.reminders) [
  | none ↦ err (not_found Entity.reminder)
  | some r ↦ ok r
]

-- The order of a map's entries is open in Go; here it is that of the list.
unfoldable pub list_scheduled_reminders : Store → List Reminder
list_scheduled_reminders s = filter (λ r. is_scheduled r.status) (values s.reminders)

-- A lease that a second delivery has to respect.
abbrev pub is_leased : Reminder → Time → Bool
is_leased r at = is_delivering r.status && after r.claim_expires at

unfoldable pub claim_reminder :
    Store → String → String → Time → Time → Store × Result (Reminder × Bool)
unfolding terminal
claim_reminder s reminder_id claim_id at lease_until = elim (lookup reminder_id s.reminders) [
  | none ↦ (s, err (not_found Entity.reminder))
  | some r ↦
      let r' = record r { status = delivering; claim_id = claim_id; claim_expires = lease_until } in
      if terminal r || is_leased r at
      then (s, ok (r, false))
      else (record s { reminders = insert reminder_id r' s.reminders }, ok (r', true))
]

unfoldable pub finish_reminder : Store → String → String → Status → Time → Store × Option Error
finish_reminder s reminder_id claim_id status at =
    if not (is_final status)
    then (s, some (message "finish reminder: status must be sent or skipped"))
    else elim (lookup reminder_id s.reminders) [
      | none ↦ (s, some (not_found Entity.reminder))
      | some r ↦
          let r' = record r {
            status = status;
            finished_at = at;
            claim_id = "";
            claim_expires = 0;
          } in
          if not (r.claim_id == claim_id) || not (is_delivering r.status)
          then (s, some (message "finish reminder: claim is not owned by this delivery"))
          else (record s { reminders = insert reminder_id r' s.reminders }, none)
    ]

unfoldable pub release_reminder : Store → String → String → Store × Option Error
release_reminder s reminder_id claim_id = elim (lookup reminder_id s.reminders) [
  | none ↦ (s, some (not_found Entity.reminder))
  | some r ↦
      let r' = record r { status = scheduled; claim_id = ""; claim_expires = 0 } in
      if not (r.claim_id == claim_id) || not (is_delivering r.status)
      then (s, none)
      else (record s { reminders = insert reminder_id r' s.reminders }, none)
]
