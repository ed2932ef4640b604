-- ===== src/Notifications/Service.antt =====
-- internal/application/notifications/service.go: the service's collaborators and settings, its access to
-- the repository, and the parts that its methods share.
pub mod Run
use Prim.Native.String.{◌++◌}
use omnichannel_booking_assi.Prelude.{
  ℕ, suc, ◌+◌, ◌*◌, String, Bool, true, false, not, ◌&&◌, ◌||◌, Option, none, some, List, [], ◌∷◌,
  ◌==◌, if◌then◌else◌,
}
use omnichannel_booking_assi.Prelude.Dict.{insert}
use omnichannel_booking_assi.Prelude.Time.{Time, Duration, second}
use omnichannel_booking_assi.Domain.Errors.{
  Error, Result, ok, err, delivery_busy, not_found, booking, cause,
}
use omnichannel_booking_assi.Domain.Booking.{Booking, Status, confirmed, cancelled, other}
use omnichannel_booking_assi.Domain.Phone.{normalize_phone, has_prefix}
use omnichannel_booking_assi.Memory.Notifications.{Rows, get_notification, transact_notifications}
use omnichannel_booking_assi.Notifications.Entry.{
  Entry, Event, Snapshot, Contact, Notice, ChannelHealth, empty_entry,
}
use omnichannel_booking_assi.Notifications.Routing.{Channel, Purpose, Target}
use omnichannel_booking_assi.Notifications.Process.{
  World, Process, Call, Task, Alert, Sending, done, step, ◌>>=◌, ◌>>◌, nothing,
}

-- `HealthGuard`, but for the clock: the provider's name, the probe and the alert.
pub record HealthGuard : Type 0 where
  pub provider : String
  pub read : World → Result ChannelHealth
  pub alert : Option (World → ChannelHealth → Option Error)

-- The collaborators and the settings. A collaborator's answer depends on the world in any way. The
-- repository may fail (a database; the one in memory does not), and then has written nothing. `parse`
-- is the phone library, `digest` the hexadecimal SHA-256, `version_text` and `format_time` the
-- encodings in JSON and RFC 3339, `name_id` an SHA-1 UUID, `valid_id` tells whether `uuid.Parse` takes
-- a text. A rejection is the flag of `Sender` and of `SMSFailureAlert`.
pub record Env : Type 0 where
  pub health : Option HealthGuard
  pub repository_error : World → Option Error
  pub scheduler : World → Task → Option Error
  pub reader : World → String → Result Snapshot
  pub owned : World → String → Option Error
  pub sender : World → Target → Notice → String → Bool × Option Error
  pub activated_at : Time
  pub templates : String → String
  pub telegram_account : Bool
  pub booking_permission_since : Time
  pub native_language : String
  pub sms_ready : Bool
  pub sms_permission_since : Time
  pub manual_permission_since : Time
  pub sms_status : Option (World → Notice → Result String)
  pub sms_failure_alert : Option (World → String → String → Bool × Option Error)
  pub parse : String → Option String
  pub digest : String → String
  pub version_text : String → String → String → List String → Time → Duration → String
  pub format_time : Time → String
  pub new_id : ℕ → String
  pub name_id : String → String
  pub valid_id : String → Bool

-- `ErrBusy`
abbrev pub busy : Error
busy = delivery_busy

-- `Key`
unfoldable pub key : Env → String → String → String
key env kind id = kind ++ "_" ++ env.digest id

-- `s.now()`
unfoldable pub now : Call Time
now = step (λ w. w) (λ w. done (ok w.clock))

-- `uuid.NewString()`
unfoldable pub fresh_id : Env → Call String
fresh_id env = step (λ w. record w { made = suc w.made }) (λ w. done (ok (env.new_id w.made)))

-- What the repository answers, if it does not fail.
abbrev pub or_fail : {A : Type 0} → Option Error → Result A → Process (Result A)
or_fail none r = done r
or_fail (some e) r = done (err e)

-- A question to the repository.
unfoldable pub query : {A : Type 0} → Env → (Rows → A) → Call A
query env answer = step (λ w. w) (λ w. or_fail (env.repository_error w) (ok (answer w.rows)))

-- `s.Repo.GetNotification`
abbrev pub get : Env → String → Call Entry
get env name = query env (get_notification name)

-- What a function may do to the rows of a transaction, at the time of the transaction.
abbrev pub Change : Type 0 → Type 0
Change A = Time → Rows → Result (A × Rows)

abbrev pub store_after : {A : Type 0} → Option Error → List String → Change A → World → World
store_after (some e) names change w = w
store_after none names change w = record w {
  rows = (transact_notifications names (change w.clock) w.rows).0;
}

-- `s.Repo.TransactNotifications`
unfoldable pub transact : {A : Type 0} → Env → List String → Change A → Call A
transact env names change =
    step (λ w. store_after (env.repository_error w) names change w)
      (λ w.
        or_fail (env.repository_error w) (transact_notifications names (change w.clock) w.rows).1)

-- `return nil` from the function of a transaction, with the rows as they are and with one row changed.
abbrev pub keep : {A : Type 0} → A → Rows → Result (A × Rows)
keep a rows = ok (a, rows)

abbrev pub put : {A : Type 0} → A → String → Entry → Rows → Result (A × Rows)
put a name entry rows = ok (a, insert name entry rows)

abbrev pub status_text : Status → String
status_text confirmed = "confirmed"
status_text cancelled = "cancelled"
status_text (other s) = s

abbrev pub phone_of : Env → String → String
phone_of env phone = elim (normalize_phone env.parse phone) [ ok e164 ↦ e164 | err e ↦ phone ]

-- `fingerprint`
unfoldable pub fingerprint : Env → Snapshot → String
unfolding key
fingerprint env snap =
    let b = snap.booking in
    key env "version" (
      env.version_text (phone_of env snap.phone) b.staff_id (status_text b.status) b.service_ids
        b.starts_at b.duration)

unfoldable pub task_of : Env → String → String → Time → Task
unfolding key
task_of env id attempt at = record {
  name = key env "native" (id ++ ":" ++ attempt);
  event_id = id;
  run_at = at + 2 * second;
}

abbrev pub with_task : Option Error → Task → World → World
with_task none task w = record w { tasks = task ∷ w.tasks }
with_task (some e) task w = w

abbrev pub task_answer : Option Error → Call (Unit {0})
task_answer none = nothing
task_answer (some e) = done (err e)

-- `schedule`
unfoldable pub schedule : Env → String → String → Call (Unit {0})
unfolding task_of
schedule env id attempt = do
  at ← now
  let task = task_of env id attempt at
  step (λ w. with_task (env.scheduler w task) task w) (λ w. task_answer (env.scheduler w task))

-- The entry that `Ingest` stores.
abbrev pub new_event : Event → Time → Entry
new_event e at = record empty_entry {
  kind = "event";
  state = "pending";
  event = record e { received_at = at };
  updated_at = at;
}

abbrev pub add_event : String → Event → Time → Change (Unit {0})
add_event name e at _ rows =
    if (get_notification name rows).kind == ""
    then put tt name (new_event e at) rows
    else keep tt rows

-- `Ingest`
unfoldable pub ingest : Env → Event → Call (Unit {0})
unfolding key schedule get_notification
ingest env e = do
  at ← now
  let name = key env "event" e.id
  transact env (name ∷ []) (add_event name e at)
  schedule env e.id "initial"

abbrev pub may_have_accepted : String → Bool
may_have_accepted outcome = outcome == "accepted_whatsapp" || outcome == "uncertain_whatsapp"

-- `prepareWhatsAppFallback`, if its tests let it go on.
abbrev pub needs_fallback : Entry → Entry → Bool
needs_fallback event delivery =
    delivery.provider_state == "failed"
    && may_have_accepted delivery.outcome
    && (event.state == "prepared" || event.state == "done" && may_have_accepted event.outcome)

abbrev pub reopened_event : Entry → Time → Entry
reopened_event event at = record event { state = "prepared"; outcome = ""; updated_at = at }

abbrev pub rejected_delivery : Entry → Time → Entry
rejected_delivery delivery at = record delivery {
  state = "retryable_rejection";
  outcome = "rejected_whatsapp";
  updated_at = at;
}

-- `prepareWhatsAppFallback`
unfoldable pub prepare_whatsapp_fallback : String → String → Time → Rows → Rows
unfolding get_notification
prepare_whatsapp_fallback event_name delivery_name at rows =
    let event = get_notification event_name rows in
    let delivery = get_notification delivery_name rows in
    if needs_fallback event delivery
    then insert delivery_name (rejected_delivery delivery at)
        (insert event_name (reopened_event event at) rows)
    else rows

abbrev pub fallback_of : String → Option String → Time → Rows → Rows
fallback_of event_name none at rows = rows
fallback_of event_name (some delivery_name) at rows =
    prepare_whatsapp_fallback event_name delivery_name at rows

abbrev pub finished : Entry → String → Time → Entry
finished row outcome at = record row { state = "done"; outcome = outcome; updated_at = at }

abbrev pub names_of : String → Option String → List String
names_of name none = name ∷ []
names_of name (some delivery_name) = name ∷ delivery_name ∷ []

abbrev pub finish_event : String → String → String → Option String → Change (Unit {0})
finish_event name owner outcome delivery_name at rows =
    let row = get_notification name rows in
    if not (row.lease_owner == owner)
    then err busy
    else ok (tt, fallback_of name delivery_name at (insert name (finished row outcome at) rows))

-- `finish`, with a delivery row or without.
unfoldable pub finish : Env → String → String → String → Option String → Call (Unit {0})
unfolding get_notification prepare_whatsapp_fallback
finish env name owner outcome delivery_name =
    transact env (names_of name delivery_name) (finish_event name owner outcome delivery_name)

-- `nativeRequestSince`
unfoldable pub native_request_since : Env → Snapshot → Time
native_request_since env snap =
    if has_prefix snap.api_id "omnichannel-" || has_prefix snap.api_id "emotion-web-"
    then 0
    else if snap.online
    then env.booking_permission_since
    else env.manual_permission_since

-- `errors.Is(err, booking.ErrNotFound)`
abbrev pub is_missing_booking : Error → Bool
is_missing_booking e = elim (cause e) [ not_found booking ↦ true | _ ↦ false ]
