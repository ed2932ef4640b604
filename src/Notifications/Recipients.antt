-- ===== src/Notifications/Recipients.antt =====
-- internal/application/notifications/service.go: whom `Deliver` may tell, in which language and by which
-- channels.
use Prim.Native.String.{◌++◌}
use omnichannel_booking_assi.Prelude.{
  String, Bool, true, false, not, ◌&&◌, ◌||◌, List, [], ◌∷◌, ◌==◌, is_empty, if◌then◌else◌,
}
use omnichannel_booking_assi.Prelude.Time.{Time, after, before, is_zero}
use omnichannel_booking_assi.Domain.Phone.{has_prefix}
use omnichannel_booking_assi.Memory.Notifications.{get_notification}
use omnichannel_booking_assi.Reminders.Language.{parse_language, tag_of}
use omnichannel_booking_assi.Notifications.Entry.{Entry, Snapshot, Contact, empty_contact}
use omnichannel_booking_assi.Notifications.Routing.{
  Channel, Purpose, Recipient, Policy, telegram, whatsapp, sms, booking_created, booking_changed,
  booking_cancelled, booking_reminder, verification, other_purpose, same_channel,
}
use omnichannel_booking_assi.Notifications.Service.{Env, Change, keep, put, native_request_since}

-- The rows that `Deliver` reads about the phone number.
pub record Consents : Type 0 where
  pub telegram_row : Entry
  pub whatsapp_row : Entry
  pub policy_row : Entry
  pub staff_row : Entry
  pub language_row : Entry
  pub web_row : Entry

-- `string(appointmentmessage.ParseLanguage(tag))`
unfoldable pub language_tag : String → String
unfolding parse_language tag_of
language_tag tag = tag_of (parse_language tag)

abbrev pub first_text : String → String → String
first_text s t = if is_empty s then t else s

unfoldable pub telegram_language : Env → Consents → String
unfolding language_tag
telegram_language env c = first_text c.language_row.contact.language (
    language_tag (
      first_text c.telegram_row.contact.language
        (first_text c.staff_row.contact.language env.native_language)))

unfoldable pub whatsapp_language : Consents → String
unfolding language_tag
whatsapp_language c =
    first_text c.language_row.contact.language (language_tag c.whatsapp_row.contact.language)

-- The test for the repair of a record that has no request yet.
unfoldable pub needs_repair : Env → Entry → Snapshot → String → Bool
unfolding native_request_since
needs_repair env row latest phone =
    is_zero row.contact.requested_at
    && row.calendar_phone == phone
    && not latest.online
    && not (is_zero latest.booking.created_at)
    && not (is_zero (native_request_since env latest))
    && not (before latest.booking.created_at (native_request_since env latest))

abbrev pub repaired : Entry → Snapshot → String → Entry
repaired row latest phone = record row {
  contact = record empty_contact { phone = phone; requested_at = latest.booking.created_at };
}

unfoldable pub repair_record : String → Snapshot → String → Change Entry
unfolding get_notification
repair_record name latest phone _ rows =
    let row = get_notification name rows in
    if row.calendar_phone == phone && is_zero row.contact.requested_at
    then put (repaired row latest phone) name (repaired row latest phone) rows
    else keep row rows

-- The request that the record holds.
unfoldable pub is_requested : Env → Entry → Snapshot → String → Bool
unfolding native_request_since
is_requested env row latest phone =
    not (is_zero row.contact.requested_at)
    && row.contact.phone == phone
    && not (is_zero (native_request_since env latest))
    && not (before row.contact.requested_at (native_request_since env latest))

-- The request made on the website, and the one that the staff recorded.
abbrev pub is_live : Contact → String → Time → Bool
is_live contact phone at = contact.phone == phone && after contact.expires_at at

unfoldable pub web_requested : Consents → Snapshot → String → Time → Bool
web_requested c latest phone at =
    has_prefix latest.api_id "emotion-web-v2-" && is_live c.web_row.contact phone at

unfoldable pub staff_requested : Consents → String → Time → Bool
staff_requested c phone at = is_live c.staff_row.contact phone at && not c.staff_row.contact.blocked

unfoldable pub updates_requested : Env → Consents → Entry → Snapshot → String → Time → Bool
unfolding is_requested web_requested staff_requested
updates_requested env c row latest phone at =
    is_requested env row latest phone
    || web_requested c latest phone at
    || staff_requested c phone at

unfoldable pub sms_requested : Env → Consents → Entry → Snapshot → String → Time → Bool
unfolding is_requested web_requested staff_requested updates_requested
sms_requested env c row latest phone at =
    not c.staff_row.contact.blocked
    && (staff_requested c phone at
        || is_requested env row latest phone && not latest.online
        || web_requested c latest phone at
        || updates_requested env c row latest phone at
          && not (is_zero env.sms_permission_since)
          && not (before row.contact.requested_at env.sms_permission_since))

abbrev pub whatsapp_opted_in : Consents → String → Time → Bool
whatsapp_opted_in c phone at =
    not c.whatsapp_row.contact.blocked && is_live c.whatsapp_row.contact phone at

unfoldable pub recipient_of : Env → Consents → Entry → Snapshot → String → Time → Recipient
unfolding updates_requested
recipient_of env c row latest phone at =
    let linked = after c.telegram_row.contact.expires_at at in
    record {
      phone = phone;
      telegram_chat = if linked then c.telegram_row.contact.chat else "";
      telegram_phone = if linked then c.telegram_row.contact.phone else "";
      whatsapp_opted_in = whatsapp_opted_in c phone at;
      whatsapp_opt_in_phone =
          if whatsapp_opted_in c phone at then c.whatsapp_row.contact.phone else "";
      telegram_opted_out = c.telegram_row.contact.blocked;
      booking_updates_requested = updates_requested env c row latest phone at;
    }

-- `string(purpose)`
unfoldable pub purpose_text : Purpose → String
purpose_text booking_created = "booking_created"
purpose_text booking_changed = "booking_changed"
purpose_text booking_cancelled = "booking_cancelled"
purpose_text booking_reminder = "booking_reminder"
purpose_text verification = "verification"
purpose_text (other_purpose s) = s

abbrev pub is_reminder : Purpose → Bool
is_reminder booking_reminder = true
is_reminder _ = false

abbrev pub order_for : Consents → Entry → Purpose → List Channel
order_for c row purpose =
    if c.policy_row.order == "whatsapp"
      || is_reminder purpose && same_channel row.confirmation_channel whatsapp
    then whatsapp ∷ telegram ∷ []
    else telegram ∷ whatsapp ∷ []

abbrev pub is_sms_only : Entry → Purpose → Bool
is_sms_only row purpose = is_reminder purpose && same_channel row.confirmation_channel sms

abbrev pub enabled_for : Bool → Bool → Bool → Channel → Bool
enabled_for sms_only whatsapp_ready sms_on telegram = not sms_only
enabled_for sms_only whatsapp_ready sms_on whatsapp = whatsapp_ready && not sms_only
enabled_for sms_only whatsapp_ready sms_on sms = sms_on
enabled_for sms_only whatsapp_ready sms_on _ = false

unfoldable pub template_for : Env → Consents → Purpose → String
unfolding purpose_text whatsapp_language
template_for env c purpose = env.templates (purpose_text purpose ++ ":" ++ whatsapp_language c)

abbrev pub same_purpose : Purpose → Purpose → Bool
same_purpose p q = purpose_text p == purpose_text q

unfoldable pub policy_of :
    Env → Consents → Entry → Snapshot → Purpose → String → Time → Bool → Policy
unfolding sms_requested template_for purpose_text
policy_of env c row latest purpose phone at whatsapp_ready = record {
  messenger_order = order_for c row purpose;
  enabled =
      enabled_for (is_sms_only row purpose) whatsapp_ready
        (env.sms_ready && sms_requested env c row latest phone at);
  templates = λ p. if same_purpose p purpose then template_for env c purpose else "";
  telegram_account = env.telegram_account;
}
