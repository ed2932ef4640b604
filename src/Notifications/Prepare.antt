-- ===== src/Notifications/Prepare.antt =====
-- internal/application/notifications/service.go: the first half of `Deliver`, which leases an event and
-- decides whether it is news for the customer.
use omnichannel_booking_assi.Prelude.{
  ◌+◌, ◌*◌, String, Bool, true, false, not, ◌&&◌, ◌||◌, ◌==◌, is_empty, if◌then◌else◌,
}
use omnichannel_booking_assi.Prelude.Dict.{insert}
use omnichannel_booking_assi.Prelude.Time.{Time, after, before, is_zero, minute}
use omnichannel_booking_assi.Domain.Errors.{ok, err}
use omnichannel_booking_assi.Domain.Booking.{Status, cancelled}
use omnichannel_booking_assi.Domain.Phone.{normalize_phone}
use omnichannel_booking_assi.Memory.Notifications.{get_notification}
use omnichannel_booking_assi.Notifications.Entry.{
  Entry, Event, Snapshot, Contact, empty_entry, empty_contact,
}
use omnichannel_booking_assi.Notifications.Routing.{
  Purpose, booking_created, booking_changed, booking_cancelled,
}
use omnichannel_booking_assi.Notifications.Service.{
  Env, Change, busy, fingerprint, keep, put, native_request_since, may_have_accepted,
  prepare_whatsapp_fallback,
}

abbrev pub is_open : Entry → Bool
is_open row = row.kind == "event" && not (row.state == "done")

abbrev pub leased : Entry → String → Time → Entry
leased row owner at = record row { lease_owner = owner; lease_until = at + 2 * minute }

-- The transaction that leases the event; its answer is the row as it is then.
unfoldable pub lease_event : String → String → Time → Change Entry
unfolding get_notification
lease_event name owner at _ rows =
    let row = get_notification name rows in
    if not (is_open row)
    then keep row rows
    else if after row.lease_until at
    then err busy
    else put (leased row owner at) name (leased row owner at) rows

-- The deferred transaction that ends the lease.
unfoldable pub release_event : String → String → Change (Unit {0})
unfolding get_notification
release_event name owner _ rows =
    let row = get_notification name rows in
    if row.lease_owner == owner
    then put tt name (record row { lease_until = 0 }) rows
    else keep tt rows

abbrev pub is_cancelled : Status → Bool
is_cancelled cancelled = true
is_cancelled _ = false

abbrev pub is_known : Entry → Snapshot → String → Bool
is_known row snap version =
    row.fingerprint == version
    || not (is_zero row.changed_at) && before snap.changed_at row.changed_at

abbrev pub purpose_of : Bool → Snapshot → Purpose
purpose_of first snap =
    if is_cancelled snap.booking.status
    then booking_cancelled
    else if first
    then booking_created
    else booking_changed

-- A new appointment made after the cutoff counts as its customer's request.
unfoldable pub permission_of : Env → Entry → Event → Snapshot → Contact
unfolding native_request_since
permission_of env row event snap =
    let since = native_request_since env snap in
    if row.kind == ""
      && event.status == "create"
      && not (is_zero since)
      && not (before snap.booking.created_at since)
    then elim (normalize_phone env.parse snap.phone) [
      | err e ↦ row.contact
      | ok phone ↦ record empty_contact { phone = phone; requested_at = snap.booking.created_at }
    ]
    else row.contact

abbrev pub same_calendar : Entry → Snapshot → Bool
same_calendar row snap = not (is_empty row.calendar_id) && row.calendar_phone == snap.phone

-- The record row that replaces the old one.
unfoldable pub new_record : Env → Entry → Event → Snapshot → Time → String → Entry
unfolding permission_of fingerprint
new_record env row event snap at new_id = record empty_entry {
  kind = "record";
  fingerprint = fingerprint env snap;
  changed_at = snap.changed_at;
  updated_at = at;
  contact = permission_of env row event snap;
  calendar_id = if same_calendar row snap then row.calendar_id else new_id;
  calendar_phone = snap.phone;
  management_token = if same_calendar row snap then row.management_token else "";
  management_phone = if same_calendar row snap then row.management_phone else "";
  confirmation_channel = row.confirmation_channel;
}

-- Old appointments, those of the assistant, and those that have begun.
unfoldable pub is_suppressed : Env → Bool → Entry → Snapshot → Time → Bool
is_suppressed env owned row snap at =
    owned
    || row.kind == ""
      && (is_zero snap.booking.created_at || before snap.booking.created_at env.activated_at)
    || not (is_cancelled snap.booking.status) && not (after snap.booking.starts_at at)

abbrev pub prepared : Env → Entry → Entry → Snapshot → Time → Entry
prepared env event row snap at = record event {
  notice = record {
    id = event.event.id;
    snapshot = snap;
    purpose = purpose_of (row.kind == "") snap;
    fingerprint = fingerprint env snap;
  };
  state = "prepared";
  updated_at = at;
}

abbrev pub suppressed : Entry → Entry
suppressed event = record event { state = "done"; outcome = "existing_or_assistant_booking" }

abbrev pub duplicate : Entry → Entry
duplicate event = record event { state = "done"; outcome = "duplicate_or_stale" }

abbrev pub news_of : Env → Bool → Entry → Entry → Snapshot → Time → Entry
news_of env owned event row snap at =
    if is_suppressed env owned row snap at
    then suppressed (prepared env event row snap at)
    else prepared env event row snap at

-- The transaction on the event and its record; its answer is the event's row as it is then.
unfoldable pub prepare_event :
    Env → String → String → String → Event → Snapshot → Bool → Time → String → Change Entry
unfolding get_notification fingerprint new_record is_suppressed
prepare_event env name record_name owner read snap owned at new_id _ rows =
    let event = get_notification name rows in
    let row = get_notification record_name rows in
    if not (event.lease_owner == owner)
    then err busy
    else if is_known row snap (fingerprint env snap)
    then put (duplicate event) name (duplicate event) rows
    else put (news_of env owned event row snap at) name (news_of env owned event row snap at)
        (insert record_name (new_record env row read snap at new_id) rows)

-- `resumeFailedWhatsApp`: its transaction.
unfoldable pub resume_change : String → String → Change (Unit {0})
unfolding get_notification prepare_whatsapp_fallback
resume_change name delivery_name at rows =
    let event = get_notification name rows in
    let delivery = get_notification delivery_name rows in
    if after event.lease_until at
    then (if delivery.provider_state == "failed" && may_have_accepted delivery.outcome
        then err busy
        else keep tt rows)
    else ok (tt, prepare_whatsapp_fallback name delivery_name at rows)
