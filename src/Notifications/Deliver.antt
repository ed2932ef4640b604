-- ===== src/Notifications/Deliver.antt =====
-- internal/application/notifications/service.go: `Deliver`, and `resumeFailedWhatsApp` of receipts.go. The
-- parts of the method are functions, the last first.
use omnichannel_booking_assi.Prelude.{
  ◌*◌, String, Bool, true, false, not, ◌&&◌, ◌||◌, Option, none, some, List, [], ◌∷◌, ◌==◌,
  is_empty, if◌then◌else◌,
}
use omnichannel_booking_assi.Prelude.Int.{pos, ltb_ℤ}
use omnichannel_booking_assi.Prelude.Time.{Time, after, sub, minute}
use omnichannel_booking_assi.Domain.Errors.{Error, Result, ok, err}
use omnichannel_booking_assi.Domain.Phone.{normalize_phone, has_prefix}
use omnichannel_booking_assi.Notifications.Entry.{Entry, Snapshot}
use omnichannel_booking_assi.Notifications.Routing.{Target, plan}
use omnichannel_booking_assi.Notifications.Process.{
  Call, done, step, ◌>>=◌, ◌>>◌, then_do, nothing, fail, return, attempt,
}
use omnichannel_booking_assi.Notifications.Service.{
  Env, key, now, fresh_id, get, transact, fingerprint, finish, is_missing_booking,
}
use omnichannel_booking_assi.Notifications.Health.{guard_allows}
use omnichannel_booking_assi.Notifications.Prepare.{
  is_open, lease_event, release_event, is_cancelled, prepare_event, resume_change,
}
use omnichannel_booking_assi.Notifications.Recipients.{
  Consents, telegram_language, whatsapp_language, needs_repair, repair_record, recipient_of,
  template_for, policy_of, is_reminder,
}
use omnichannel_booking_assi.Notifications.Attempts.{Job, delivery_id, try_targets}

-- `s.Reader.ReadNativeBooking`
abbrev pub read_booking : Env → String → Call Snapshot
read_booking env record_id = step (λ w. w) (λ w. done (env.reader w record_id))

abbrev pub owned_answer : Option Error → Call Bool
owned_answer none = return true
owned_answer (some e) = if is_missing_booking e then return false else fail e

-- `s.Owned.FindBooking`: whether the assistant made the appointment.
abbrev pub find_owned : Env → String → Call Bool
find_owned env record_id = step (λ w. w) (λ w. owned_answer (env.owned w record_id))

abbrev pub read_consents : Env → String → Call Consents
read_consents env phone = do
  telegram_row ← get env (key env "telegram_phone" phone)
  whatsapp_row ← get env (key env "whatsapp_phone" phone)
  policy_row ← get env "policy"
  staff_row ← get env (key env "booking_phone" phone)
  language_row ← get env (key env "language_phone" phone)
  web_row ← get env (key env "web_phone" phone)
  return (record {
    telegram_row = telegram_row;
    whatsapp_row = whatsapp_row;
    policy_row = policy_row;
    staff_row = staff_row;
    language_row = language_row;
    web_row = web_row;
  })

abbrev pub repair : Env → String → Snapshot → String → Entry → Call Entry
repair env record_name latest phone row =
    if needs_repair env row latest phone
    then transact env (record_name ∷ []) (repair_record record_name latest phone)
    else return row

abbrev pub whatsapp_ready : Env → String → String → Call Bool
whatsapp_ready env template language = if is_empty template then return false else elim env.health [
  | none ↦ return true
  | some guard ↦ guard_allows env guard template language
]

-- The event that the delivery has leased: the key of its row, the lease, and the time when it began.
pub record Lease : Type 0 where
  pub name : String
  pub owner : String
  pub at : Time

abbrev pub finish_lease : Env → Lease → String → Call (Unit {0})
finish_lease env lease outcome = finish env lease.name lease.owner outcome none

abbrev pub job_of : Env → Lease → Entry → Consents → String → Job
job_of env lease row c phone = record {
  name = lease.name;
  owner = lease.owner;
  record_id = row.event.record_id;
  id = row.event.id;
  notice = row.notice;
  phone = phone;
  telegram_language = telegram_language env c;
  whatsapp_language = whatsapp_language c;
  at = lease.at;
}

abbrev pub send_to : Env → Lease → Job → Result (List Target) → Call (Unit {0})
send_to env lease job (err e) = fail e
send_to env lease job (ok []) = finish_lease env lease "no_linked_messenger"
send_to env lease job (ok (target ∷ targets)) = try_targets env job (target ∷ targets)

-- From the reading of the contacts on.
unfoldable pub notify : Env → Lease → Entry → Snapshot → String → Call (Unit {0})
unfolding key try_targets finish telegram_language whatsapp_language guard_allows needs_repair
    repair_record
notify env lease row latest phone = do
  c ← read_consents env phone
  found ← get env (key env "record" row.event.record_id)
  permission ← repair env (key env "record" row.event.record_id) latest phone found
  ready ← whatsapp_ready env (template_for env c row.notice.purpose) (whatsapp_language c)
  let policy = policy_of env c permission latest row.notice.purpose phone lease.at ready
  let recipient = recipient_of env c permission latest phone lease.at
  send_to env lease (job_of env lease row c phone)
      (plan env.parse policy recipient row.notice.purpose)

abbrev pub has_started : Snapshot → Time → Bool
has_started latest at =
    not (is_cancelled latest.booking.status) && not (after latest.booking.starts_at at)

abbrev pub is_late_reminder : Entry → Snapshot → Time → Bool
is_late_reminder row latest at =
    is_reminder row.notice.purpose
    && (ltb_ℤ (pos (15 * minute)) (sub at row.event.received_at)
        || is_cancelled latest.booking.status)

abbrev pub notify_number : Env → Lease → Entry → Snapshot → Result String → Call (Unit {0})
notify_number env lease row latest (ok phone) = notify env lease row latest phone
notify_number env lease row latest (err e) = finish_lease env lease "no_valid_phone"

-- The tests on the appointment as it is now.
unfoldable pub notify_latest : Env → Lease → Entry → Snapshot → Call (Unit {0})
unfolding notify finish fingerprint
notify_latest env lease row latest = do
  started_at ← now
  late_at ← now
  if not (fingerprint env latest == row.notice.fingerprint)
      then finish_lease env lease "superseded"
      else if has_started latest started_at
      then finish_lease env lease "appointment_started"
      else if is_late_reminder row latest late_at
      then finish_lease env lease "reminder_expired"
      else notify_number env lease row latest (normalize_phone env.parse latest.phone)

-- `if readErr != nil`
abbrev pub on_read : Env → Lease → (Snapshot → Call (Unit {0})) → Result Snapshot → Call (Unit {0})
on_read env lease next (ok snap) = next snap
on_read env lease next (err e) =
    if is_missing_booking e then finish_lease env lease "record_unavailable" else fail e

unfoldable pub deliver_prepared : Env → Lease → Entry → Call (Unit {0})
unfolding notify_latest finish
deliver_prepared env lease row = do
  answer ← attempt (read_booking env row.event.record_id)
  on_read env lease (notify_latest env lease row) answer

unfoldable pub deliver_news : Env → Lease → Entry → Snapshot → Call (Unit {0})
unfolding deliver_prepared prepare_event key
deliver_news env lease row snap = do
  owned ← find_owned env row.event.record_id
  new_id ← fresh_id env
  let record_name = key env "record" row.event.record_id
  ready ← transact env (lease.name ∷ record_name ∷ []) (
      prepare_event env lease.name record_name lease.owner row.event snap
        (owned || has_prefix snap.api_id "omnichannel-") lease.at new_id)
  if ready.state == "done" then nothing else deliver_prepared env lease ready

unfoldable pub deliver_pending : Env → Lease → Entry → Call (Unit {0})
unfolding deliver_news finish
deliver_pending env lease row = do
  answer ← attempt (read_booking env row.event.record_id)
  on_read env lease (deliver_news env lease row) answer

-- The deferred release of the lease: its own error is dropped.
abbrev pub and_release : Env → Lease → Call (Unit {0}) → Call (Unit {0})
and_release env lease body = then_do body (λ r.
    then_do (transact env (lease.name ∷ []) (release_event lease.name lease.owner))
      (λ ignored. done r))

abbrev pub deliver_leased : Env → Lease → Entry → Call (Unit {0})
deliver_leased env lease row =
    if row.state == "pending" then deliver_pending env lease row else deliver_prepared env lease row

-- `resumeFailedWhatsApp`
unfoldable pub resume_failed_whatsapp : Env → String → Call (Unit {0})
unfolding resume_change key delivery_id
resume_failed_whatsapp env id = do
  event ← get env (key env "event" id)
  let delivery_name = key env "delivery" (delivery_id event.event.record_id id)
  if not (event.kind == "event")
      then nothing
      else transact env (key env "event" id ∷ delivery_name ∷ [])
          (resume_change (key env "event" id) delivery_name)

abbrev pub lease_of : Env → String → String → Time → Lease
lease_of env id owner at = record { name = key env "event" id; owner = owner; at = at }

-- `Deliver`
unfoldable pub deliver : Env → String → Call (Unit {0})
unfolding resume_failed_whatsapp lease_event deliver_pending deliver_prepared release_event key
deliver env id = do
  resume_failed_whatsapp env id
  owner ← fresh_id env
  at ← now
  row ← transact env (key env "event" id ∷ []) (lease_event (key env "event" id) owner at)
  if not (is_open row)
      then nothing
      else and_release env (lease_of env id owner at)
          (deliver_leased env (lease_of env id owner at) row)
