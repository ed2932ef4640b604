-- ===== src/Notifications/Receipts.antt =====
-- internal/application/notifications/receipts.go: the delivery receipts of WhatsApp.
pub mod Final
use Prim.Native.Char.{code}
use omnichannel_booking_assi.Prelude.{
  ℕ, String, Bool, true, false, not, ◌&&◌, ◌||◌, Option, none, some, List, [], ◌∷◌, ◌==◌, eqb,
  if◌then◌else◌,
}
use omnichannel_booking_assi.Prelude.Dict.{insert}
use omnichannel_booking_assi.Prelude.Time.{Time}
use omnichannel_booking_assi.Domain.Errors.{Result, ok, err}
use omnichannel_booking_assi.Domain.Phone.{normalize_phone}
use omnichannel_booking_assi.Memory.Notifications.{Rows, get_notification}
use omnichannel_booking_assi.Notifications.Entry.{Entry}
use omnichannel_booking_assi.Notifications.Process.{Process, Call, done, ◌>>=◌, nothing}
use omnichannel_booking_assi.Notifications.Service.{
  Env, Change, key, get, transact, keep, put, schedule, prepare_whatsapp_fallback,
}
use omnichannel_booking_assi.Notifications.Attempts.{delivery_id, is_attempted}

-- `strings.CutPrefix`
unfoldable pub cut_prefix : String → String → Option String
cut_prefix s String.[] = some s
cut_prefix String.[] (String.◌∷◌ d p) = none
cut_prefix (String.◌∷◌ c s) (String.◌∷◌ d p) =
    let rest = cut_prefix s p in if eqb (code c) (code d) then rest else none

abbrev pub is_receipt : String → Bool
is_receipt state = state == "sent" || state == "delivered" || state == "read" || state == "failed"

-- A read or delivered message stays so, and a failure is not undone by an older receipt.
unfoldable pub is_outdated : Entry → String → Bool
is_outdated row state =
    row.provider_state == "read"
    || row.provider_state == "delivered" && not (state == "read")
    || row.provider_state == "failed" && state == "sent"

abbrev pub with_receipt : Entry → String → Time → Entry
with_receipt row state at = record row { provider_state = state; updated_at = at }

abbrev pub arrived : String → Bool
arrived state = state == "delivered" || state == "read"

abbrev pub is_superseded : Entry → String → Bool
is_superseded row state =
    arrived state && row.state == "retryable_rejection" && row.outcome == "rejected_whatsapp"

abbrev pub accepted : Entry → Entry
accepted row = record row { state = "done"; outcome = "accepted_whatsapp" }

abbrev pub accepted_event : Entry → Time → Entry
accepted_event event at =
    if event.state == "prepared"
    then record event { state = "done"; outcome = "accepted_whatsapp"; updated_at = at }
    else event

-- The rows once the receipt is stored in the delivery's.
unfoldable pub after_receipt : String → String → String → Time → Rows → Rows
unfolding get_notification prepare_whatsapp_fallback
after_receipt name delivery_name state at rows =
    let event = get_notification name rows in
    let row = get_notification delivery_name rows in
    if state == "failed"
    then prepare_whatsapp_fallback name delivery_name at rows
    else if is_superseded row state
    then insert name (accepted_event event at) (insert delivery_name (accepted row) rows)
    else rows

-- The transaction of the receipt; its answer tells whether the message has failed.
unfoldable pub record_receipt : String → String → String → Change Bool
unfolding get_notification is_attempted is_outdated after_receipt
record_receipt name delivery_name state at rows =
    let row = get_notification delivery_name rows in
    if not (is_attempted "whatsapp" row.attempted) || is_outdated row state
    then keep false rows
    else ok (
      state == "failed",
      after_receipt name delivery_name state at
          (insert delivery_name (with_receipt row state at) rows),
    )

abbrev pub same_number : Env → Entry → String → Bool
same_number env event phone = elim (normalize_phone env.parse event.notice.snapshot.phone) [
  | ok bound ↦ bound == phone
  | err e ↦ false
]

-- From the reading of the event on.
unfoldable pub receipt_for : Env → String → String → String → Call (Unit {0})
unfolding record_receipt key delivery_id schedule
receipt_for env id phone state = do
  event ← get env (key env "event" id)
  let delivery_name = key env "delivery" (delivery_id event.event.record_id id)
  if not (event.kind == "event" && event.notice.id == id) || not (same_number env event phone)
      then nothing
      else transact env (key env "event" id ∷ delivery_name ∷ [])
          (record_receipt (key env "event" id) delivery_name state)
        >>= λ failed. if failed then schedule env id "whatsapp-failed" else nothing

-- `WhatsAppStatus`
unfoldable pub whatsapp_status : Env → String → String → String → Call (Unit {0})
unfolding cut_prefix receipt_for
whatsapp_status env reference raw_phone state = elim (cut_prefix reference "native-booking:") [
  | none ↦ nothing
  | some id ↦
      if not (env.valid_id id) then nothing else elim (normalize_phone env.parse raw_phone) [
        | err e ↦ nothing
        | ok phone ↦ if not (is_receipt state) then nothing else receipt_for env id phone state
      ]
]
