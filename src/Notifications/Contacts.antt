-- ===== src/Notifications/Contacts.antt =====
-- internal/application/notifications: the consents of customers (`AllowPhone`, `BlockPhone`,
-- `RequestContact`, `LinkTelegram`, `UnlinkTelegram` and `LinkWhatsApp` of service.go), preferences.go
-- and direct_echo.go.
pub mod Withdraw
pub mod Language
pub mod Link
use Prim.Native.String.{◌++◌}
use omnichannel_booking_assi.Prelude.{
  ℕ, ◌+◌, ◌*◌, String, Bool, true, false, not, ◌&&◌, ◌||◌, Option, none, some, List, [], ◌∷◌, ◌==◌,
  is_empty, if◌then◌else◌,
}
use omnichannel_booking_assi.Prelude.Int.{pos, ltb_ℤ}
use omnichannel_booking_assi.Prelude.Dict.{insert}
use omnichannel_booking_assi.Prelude.Time.{Time, after, sub, is_zero, minute, day}
use omnichannel_booking_assi.Domain.Errors.{Error, Result, ok, err, message}
use omnichannel_booking_assi.Domain.Phone.{normalize_phone}
use omnichannel_booking_assi.Memory.Notifications.{Rows, get_notification}
use omnichannel_booking_assi.Notifications.Entry.{Entry, Contact, empty_entry, empty_contact}
use omnichannel_booking_assi.Notifications.Routing.{telegram, whatsapp}
use omnichannel_booking_assi.Notifications.Process.{
  Process, Call, done, ◌>>=◌, nothing, fail, return,
}
use omnichannel_booking_assi.Notifications.Service.{Env, Change, key, get, transact, keep, put}
use omnichannel_booking_assi.Notifications.Recipients.{language_tag}

-- How long a consent lasts.
abbrev pub consent_time : ℕ
consent_time = 180 * day

-- `phone, err := customer.NormalizePhone(rawPhone); if err != nil { return err }`
abbrev pub with_number : {A : Type 0} → Result String → (String → Call A) → Call A
with_number (ok phone) next = next phone
with_number (err e) next = fail e

abbrev pub is_language : String → Bool
is_language lang = lang == "en" || lang == "ru" || lang == "hy"

abbrev pub allowed_row : String → String → Time → Entry
allowed_row phone lang at = record empty_entry {
  kind = "staff_permission";
  contact = record empty_contact {
    phone = phone;
    language = lang;
    requested_at = at;
    expires_at = at + consent_time;
  };
}

abbrev pub with_contact : Entry → Contact → Entry
with_contact row contact = record row { contact = contact }

abbrev pub unblocked : Entry → Entry
unblocked row = record row { contact = record row.contact { blocked = false } }

unfoldable pub allow_rows : String → String → String → String → Change (Unit {0})
unfolding get_notification
allow_rows booking_name telegram_name phone lang at rows =
    let marked = insert booking_name (allowed_row phone lang at) rows in
    put tt telegram_name (unblocked (get_notification telegram_name marked)) marked

-- `AllowPhone`
unfoldable pub allow_phone : Env → String → String → Call (Unit {0})
unfolding allow_rows key
allow_phone env raw_phone lang = with_number (normalize_phone env.parse raw_phone) (λ phone.
    if not (is_language lang)
    then fail (message "unsupported notification language")
    else transact env (key env "booking_phone" phone ∷ key env "telegram_phone" phone ∷ [])
        (allow_rows (key env "booking_phone" phone) (key env "telegram_phone" phone) phone lang))

abbrev pub blocked_row : Entry → String → Time → Entry
blocked_row row phone at = record row {
  kind = "contact";
  contact = record row.contact { phone = phone; blocked = true; expires_at = 0 };
  updated_at = at;
}

-- `for _, key := range keys`
unfoldable pub block_rows : List String → String → Time → Rows → Rows
unfolding get_notification
block_rows [] phone at rows = rows
block_rows (name ∷ names) phone at rows =
    block_rows names phone at (insert name (blocked_row (get_notification name rows) phone at) rows)

abbrev pub block_names : Env → String → List String
block_names env phone =
    key env "booking_phone" phone
    ∷ key env "telegram_phone" phone
    ∷ key env "whatsapp_phone" phone
    ∷ []

-- `BlockPhone`
unfoldable pub block_phone : Env → String → Call (Unit {0})
unfolding block_rows key
block_phone env raw_phone = with_number (normalize_phone env.parse raw_phone) (λ phone.
    transact env (block_names env phone)
      (λ at rows. ok (tt, block_rows (block_names env phone) phone at rows)))

unfoldable pub request_row : String → String → String → Change (Unit {0})
unfolding get_notification language_tag
request_row name chat lang at rows =
    let row = get_notification name rows in
    put tt name
      (record row {
        kind = "contact";
        contact = record row.contact {
          chat = chat;
          language = language_tag lang;
          requested_at = at;
        };
      })
      rows

-- `RequestContact`
unfoldable pub request_contact : Env → String → String → Call (Unit {0})
unfolding request_row key
request_contact env chat lang =
    transact env (key env "telegram_chat" chat ∷ [])
      (request_row (key env "telegram_chat" chat) chat lang)

-- The row of the phone number that the chat had, if it is another one.
abbrev pub old_name : Env → Contact → String → Option String
old_name env old phone =
    if not (is_empty old.phone) && not (old.phone == phone)
    then some (key env "telegram_phone" old.phone)
    else none

abbrev pub add_name : Option String → List String
add_name none = []
add_name (some name) = name ∷ []

abbrev pub linked_contact : Contact → String → Time → Contact
linked_contact own phone at = record own {
  phone = phone;
  channel = telegram;
  expires_at = at + consent_time;
  blocked = false;
  requested_at = 0;
}

-- The old number's row is emptied, if it is this chat's.
abbrev pub clear_old : Option String → String → Rows → Rows
clear_old none chat rows = rows
clear_old (some name) chat rows =
    if (get_notification name rows).contact.chat == chat then insert name empty_entry rows else rows

unfoldable pub link_rows :
    String → String → Option String → String → String → String → Change (Unit {0})
unfolding get_notification
link_rows chat_name phone_name old chat phone old_phone at rows =
    let own = get_notification chat_name rows in
    let by_phone = get_notification phone_name rows in
    if not (own.contact.phone == old_phone)
    then err (message "contact changed; request linking again")
    else if own.contact.phone == phone
        && after own.contact.expires_at at
        && by_phone.contact.chat == chat
    then keep tt rows
    else if is_zero own.contact.requested_at
        || ltb_ℤ (pos (10 * minute)) (sub at own.contact.requested_at)
    then err (message "contact request expired; use /notifications")
    else if not (is_empty by_phone.contact.chat)
        && not (by_phone.contact.chat == chat)
        && after by_phone.contact.expires_at at
    then err (message "this phone is already linked; please contact the studio")
    else ok (
      tt,
      insert phone_name (with_contact own (linked_contact own.contact phone at)) (
          insert chat_name (with_contact own (linked_contact own.contact phone at))
            (clear_old old chat rows)),
    )

-- `LinkTelegram`
unfoldable pub link_telegram : Env → String → String → Call (Unit {0})
unfolding link_rows key
link_telegram env chat raw_phone = with_number (normalize_phone env.parse raw_phone) (λ phone.
    get env (key env "telegram_chat" chat) >>= λ old.
    transact env
      (key env "telegram_chat" chat
        ∷ key env "telegram_phone" phone
        ∷ add_name (old_name env old.contact phone))
      (link_rows (key env "telegram_chat" chat) (key env "telegram_phone" phone)
        (old_name env old.contact phone) chat phone old.contact.phone))

abbrev pub withdrawn : Entry → Entry
withdrawn row = record row { contact = record row.contact { expires_at = 0; blocked = true } }

unfoldable pub unlink_rows : String → String → String → String → Change (Unit {0})
unfolding get_notification
unlink_rows chat_name phone_name chat old_phone _ rows =
    let own = get_notification chat_name rows in
    if not (own.contact.phone == old_phone)
    then err (message "contact changed; try again")
    else (let marked = insert chat_name (withdrawn own) rows in
        let by_phone = get_notification phone_name marked in
        if by_phone.contact.chat == chat
        then put tt phone_name (withdrawn by_phone) marked
        else keep tt marked)

-- `UnlinkTelegram`
unfoldable pub unlink_telegram : Env → String → Call (Unit {0})
unfolding unlink_rows key
unlink_telegram env chat = get env (key env "telegram_chat" chat) >>= λ old.
    if is_empty old.contact.phone
    then nothing
    else transact env
        (key env "telegram_chat" chat ∷ key env "telegram_phone" old.contact.phone ∷ [])
        (unlink_rows (key env "telegram_chat" chat) (key env "telegram_phone" old.contact.phone)
          chat old.contact.phone)

unfoldable pub whatsapp_row : Bool → String → String → Time → Entry
unfolding language_tag
whatsapp_row enabled phone lang at =
    if not enabled
    then record empty_entry {
      kind = "contact";
      contact = record empty_contact { phone = phone; channel = whatsapp; blocked = true };
    }
    else record empty_entry {
      kind = "contact";
      contact = record empty_contact {
        phone = phone;
        channel = whatsapp;
        language = language_tag lang;
        expires_at = at + consent_time;
      };
    }

-- `LinkWhatsApp`
unfoldable pub link_whatsapp : Env → String → String → Bool → Call (Unit {0})
unfolding whatsapp_row key
link_whatsapp env raw_phone lang enabled =
    with_number (normalize_phone env.parse raw_phone) (λ phone.
      transact env (key env "whatsapp_phone" phone ∷ [])
        (λ at. put tt (key env "whatsapp_phone" phone) (whatsapp_row enabled phone lang at)))

abbrev pub sets_language : Entry → String → Bool → Bool
sets_language row hint explicit = not (is_empty hint) && (explicit || is_empty row.contact.language)

abbrev pub saved_language : Entry → String
saved_language row = if is_empty row.contact.language then "ru" else row.contact.language

unfoldable pub resolve_row : String → String → Bool → Change String
unfolding get_notification
resolve_row name hint explicit at rows =
    let row = get_notification name rows in
    if sets_language row hint explicit
    then put hint name
        (record row {
          kind = "language";
          contact = record row.contact { language = hint };
          updated_at = at;
          state = if explicit then "explicit" else "inferred";
        })
        rows
    else keep (saved_language row) rows

-- `ResolveLanguage`
unfoldable pub resolve_language : Env → String → String → Bool → Call String
unfolding resolve_row key
resolve_language env raw_phone hint explicit =
    with_number (normalize_phone env.parse raw_phone) (λ phone.
      if not (is_empty hint) && not (is_language hint)
      then fail (message "unsupported language")
      else transact env (key env "language_phone" phone ∷ [])
          (resolve_row (key env "language_phone" phone) hint explicit))

-- The row that remembers a direct send for a week.
abbrev pub direct_row : Time → Entry
direct_row at = record empty_entry {
  kind = "direct_outbound";
  state = "done";
  updated_at = at;
  contact = record empty_contact { expires_at = at + 7 * day };
}

unfoldable pub direct_key : Env → String → String → String
unfolding key
direct_key env provider id = key env "direct_outbound" (provider ++ ":" ++ id)

-- `RecordDirectSend`
unfoldable pub record_direct_send : Env → String → String → Call (Unit {0})
unfolding direct_key
record_direct_send env provider id =
    transact env (direct_key env provider id ∷ [])
      (λ at. put tt (direct_key env provider id) (direct_row at))

-- `IsDirectSend`
unfoldable pub is_direct_send : Env → String → String → Call Bool
unfolding direct_key
is_direct_send env provider id = do
  row ← get env (direct_key env provider id)
  return (row.kind == "direct_outbound")
