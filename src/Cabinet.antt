-- ===== src/Cabinet.antt =====
-- internal/application/cabinet/identity.go: the proof that a customer owns a phone number.
pub mod Lockout
use Prim.Native.String.{◌++◌}
use Prim.Native.Char.{code}
use omnichannel_booking_assi.Prelude.{
  ℕ, suc, ◌+◌, ◌*◌, String, Bool, true, false, not, ◌&&◌, ◌||◌, Option, none, some, List, [], ◌∷◌,
  ◌==◌, eqb, leb, ltb, is_empty, if◌then◌else◌,
}
use omnichannel_booking_assi.Prelude.Int.{pos, ltb_ℤ}
use omnichannel_booking_assi.Prelude.Dict.{insert}
use omnichannel_booking_assi.Prelude.Time.{Time, after, sub, minute, hour}
use omnichannel_booking_assi.Domain.Errors.{Error, Result, ok, err, message}
use omnichannel_booking_assi.Domain.Phone.{normalize_phone}
use omnichannel_booking_assi.Memory.Notifications.{Rows, get_notification}
use omnichannel_booking_assi.Notifications.Entry.{Entry, PhoneChallenge, empty_entry, empty_contact}
use omnichannel_booking_assi.Notifications.Process.{
  World, Process, Call, CodeMessage, done, step, ◌>>=◌, ◌>>◌, nothing, fail, return,
}
use omnichannel_booking_assi.Notifications.Service.{Env, Change, now, get, transact, keep, put}
use omnichannel_booking_assi.Notifications.Service as Service
use omnichannel_booking_assi.Notifications.Contacts.{consent_time}

abbrev pub expired : Error
expired = message "phone verification expired"

abbrev pub invalid : Error
invalid = message "phone verification code is invalid"

abbrev pub limited : Error
limited = message "phone verification temporarily limited"

abbrev pub unavailable : Error
unavailable = message "phone verification unavailable"

-- `Identity`: the sender if there is one, whether the secret is long enough, the HMAC under it of a
-- provider, a user, a phone number and a code, and the random code and identifier, if there is randomness.
pub record Identity : Type 0 where
  pub sender : Option (World → CodeMessage → Option Error)
  pub has_secret : Bool
  pub mac : String → String → String → String → String
  pub random_code : World → Option String
  pub random_id : World → Option String

-- `key` and `challengeKey`
unfoldable pub proof_key : Env → String → String → String
proof_key env provider user = Service.key env "cabinet_identity" (provider ++ ":" ++ user)

unfoldable pub challenge_key : Env → String → String → String
challenge_key env provider user = Service.key env "cabinet_challenge" (provider ++ ":" ++ user)

-- `strings.TrimPrefix(user, "+")`
abbrev pub trim_plus : String → String
trim_plus String.[] = ""
trim_plus (String.◌∷◌ c s) = if eqb (code c) b'+' then s else String.◌∷◌ c s

abbrev pub or_none : Result String → Result String
or_none (ok phone) = ok phone
or_none (err e) = ok ""

-- The link of a Telegram chat that has passed the webhook's checks.
abbrev pub linked_phone : Env → String → Call String
linked_phone env user = do
  old ← get env (Service.key env "telegram_chat" user)
  at ← now
  if after old.contact.expires_at at && old.contact.chat == user
      then done (normalize_phone env.parse old.contact.phone)
      else return ""

-- `Phone`
unfoldable pub phone_of : Env → String → String → Call String
phone_of env provider user = do
  row ← get env (proof_key env provider user)
  at ← now
  if after row.contact.expires_at at
      then done (normalize_phone env.parse row.contact.phone)
      else if provider == "whatsapp"
      then done (or_none (normalize_phone env.parse ("+" ++ trim_plus user)))
      else if provider == "telegram"
      then linked_phone env user
      else return ""

abbrev pub with_challenge : Entry → PhoneChallenge → Entry
with_challenge row challenge = record row { verification = challenge }

-- A challenge in a state that has not run out.
abbrev pub is_in : String → PhoneChallenge → Time → Bool
is_in state v at = v.state == state && after v.expires_at at

unfoldable pub begin_row : String → Change (Unit {0})
begin_row name at rows =
    let row = get_notification name rows in
    if is_in "code" row.verification at
    then keep tt rows
    else put tt name
        (record row {
          kind = "cabinet_challenge";
          verification = record row.verification {
            state = "phone";
            contact_message_id = "";
            expires_at = at + 10 * minute;
          };
        })
        rows

-- `Begin`
unfoldable pub begin : Env → String → String → Call (Unit {0})
begin env provider user =
    transact env (challenge_key env provider user ∷ [])
      (begin_row (challenge_key env provider user))

unfoldable pub pending_state : PhoneChallenge → Time → String
pending_state v at =
    if after v.expires_at at
    then v.state
    else if v.state == "code" || v.state == "locked"
    then "expired"
    else ""

-- `Pending`
unfoldable pub pending : Env → String → String → Call String
pending env provider user = do
  row ← get env (challenge_key env provider user)
  at ← now
  return (pending_state row.verification at)

unfoldable pub cancel_row : String → Change (Unit {0})
cancel_row name _ rows =
    let row = get_notification name rows in
    put tt name
      (with_challenge row
        (record row.verification { state = ""; hash = ""; contact_message_id = "" }))
      rows

-- `Cancel`
unfoldable pub cancel : Env → String → String → Call (Unit {0})
cancel env provider user =
    transact env (challenge_key env provider user ∷ [])
      (cancel_row (challenge_key env provider user))

-- The proof of ownership, from `at` on.
abbrev pub proof_entry : String → String → Time → Entry
proof_entry phone user at = record empty_entry {
  kind = "cabinet_identity";
  contact = record empty_contact { phone = phone; chat = user; expires_at = at + consent_time };
}

-- `RecordTelegramResolution`
unfoldable pub record_telegram_resolution : Env → String → String → Time → Call (Unit {0})
record_telegram_resolution env user raw_phone at = elim (normalize_phone env.parse raw_phone) [
  | err e ↦ fail invalid
  | ok phone ↦
      if is_empty user
      then fail invalid
      else transact env (proof_key env "telegram" user ∷ [])
          (λ _. put tt (proof_key env "telegram" user) (proof_entry phone user at))
]

-- The same contact was accepted before.
abbrev pub is_repeated : PhoneChallenge → Entry → String → String → Time → Bool
is_repeated v proof phone message_id at =
    not (is_empty message_id)
    && v.contact_message_id == message_id
    && proof.contact.phone == phone
    && after proof.contact.expires_at at

unfoldable pub accept_rows : String → String → String → String → String → Change Bool
accept_rows own_name proof_name user phone message_id at rows =
    let own = get_notification own_name rows in
    let proof = get_notification proof_name rows in
    if not (is_in "phone" own.verification at)
    then (if is_repeated own.verification proof phone message_id at
        then keep false rows
        else err expired)
    else ok (
      true,
      insert own_name
          (with_challenge own
            (record own.verification { state = ""; hash = ""; contact_message_id = message_id }))
          (insert proof_name (proof_entry phone user at) rows),
    )

-- `AcceptTelegramContact`
unfoldable pub accept_telegram_contact : Env → String → String → String → Call Bool
accept_telegram_contact env user raw_phone message_id = elim (normalize_phone env.parse raw_phone) [
  | err e ↦ fail invalid
  | ok phone ↦
      if is_empty user
      then fail invalid
      else transact env (challenge_key env "telegram" user ∷ proof_key env "telegram" user ∷ []) (
          accept_rows (challenge_key env "telegram" user) (proof_key env "telegram" user) user phone
            message_id)
]

-- `OwnContact`
unfoldable pub own_contact : Env → String → String → Call (Unit {0})
own_contact env user raw_phone = accept_telegram_contact env user raw_phone "" >>= λ first. nothing

abbrev pub max_sends : ℕ
max_sends = 5

abbrev pub max_attempts : ℕ
max_attempts = 5

-- The window begins anew an hour after its start.
abbrev pub renewed : PhoneChallenge → Time → PhoneChallenge
renewed v at =
    if not (ltb_ℤ (sub at v.window_started) (pos hour))
    then record v { window_started = at; sends = 0 }
    else v

-- The loop over the two budgets, for one of them.
unfoldable pub check_budget : PhoneChallenge → Time → Result PhoneChallenge
check_budget v at =
    if after v.next_send_at at
    then err limited
    else if leb max_sends (renewed v at).sends
    then err limited
    else ok (renewed v at)

abbrev pub spent : PhoneChallenge → Time → PhoneChallenge
spent v at = record v { sends = suc v.sends; next_send_at = at + minute }

abbrev pub code_challenge : PhoneChallenge → String → String → Time → PhoneChallenge
code_challenge v phone hash at = record (spent v at) {
  phone = phone;
  hash = hash;
  state = "code";
  attempts = 0;
  expires_at = at + 5 * minute;
}

abbrev pub budget_entry : Entry → PhoneChallenge → Time → Entry
budget_entry row v at = record row { kind = "cabinet_phone_budget"; verification = spent v at }

-- The transaction of `Send`.
unfoldable pub reserve_code : String → String → String → String → Time → Change (Unit {0})
reserve_code own_name phone_name phone hash at _ rows =
    let own = get_notification own_name rows in
    let budget = get_notification phone_name rows in
    if not (is_in "phone" own.verification at)
    then err expired
    else elim (check_budget own.verification at) [
      | err e ↦ err e
      | ok own_budget ↦ elim (check_budget budget.verification at) [
        | err e ↦ err e
        | ok phone_budget ↦ ok (
          tt,
          insert phone_name (budget_entry budget phone_budget at)
              (insert own_name (with_challenge own (code_challenge own_budget phone hash at)) rows),
        )
      ]
    ]

-- The text of the SMS; a language that is not given is the empty text.
unfoldable pub code_message : String → String → String
code_message language digits =
    if language == "ru"
    then "E-Motion Concept: " ++ digits
      ++ " — код доступа к вашим записям. Действует 5 минут. Никому не сообщайте."
    else if language == "hy"
    then "E-Motion Concept: " ++ digits
      ++ " — ձեր ամրագրումների մուտքի կոդը։ Գործում է 5 րոպե։ Մի փոխանցեք այն։"
    else "E-Motion Concept: " ++ digits
      ++ " is your booking access code. Expires in 5 minutes. Do not share it."

abbrev pub random_text : (World → Option String) → Call String
random_text draw =
    step (λ w. w) (λ w. elim (draw w) [ none ↦ fail unavailable | some s ↦ return s ])

abbrev pub sent_answer : Option Error → Call (Unit {0})
sent_answer none = nothing
sent_answer (some e) = fail e

-- `s.Sender.SendCode`, once.
abbrev pub send_code : (World → CodeMessage → Option Error) → CodeMessage → Call (Unit {0})
send_code sender text =
    step (λ w. record w { codes = text ∷ w.codes }) (λ w. sent_answer (sender w text))

abbrev pub code_sms : String → String → String → String → Time → CodeMessage
code_sms phone language digits request_id at = record {
  phone = phone;
  text = code_message language digits;
  request_id = request_id;
  expires_at = at + 5 * minute;
}

abbrev pub send_to :
    Env
    → Identity
    → (World → CodeMessage → Option Error)
    → String
    → String
    → String
    → String
    → Call (Unit {0})
send_to env identity sender provider user phone language = do
  digits ← random_text identity.random_code
  request_id ← random_text identity.random_id
  at ← now
  let own_name = challenge_key env provider user
  let phone_name = Service.key env "cabinet_phone_budget" phone
  transact env (own_name ∷ phone_name ∷ [])
      (reserve_code own_name phone_name phone (identity.mac provider user phone digits) at)
  send_code sender (code_sms phone language digits request_id at)

-- `Send`
unfoldable pub send : Env → Identity → String → String → String → String → Call (Unit {0})
send env identity provider user raw_phone language = elim (normalize_phone env.parse raw_phone) [
  | err e ↦ fail invalid
  | ok phone ↦ elim identity.sender [
    | none ↦ fail unavailable
    | some sender ↦
        if not identity.has_secret
        then fail unavailable
        else send_to env identity sender provider user phone language
  ]
]

-- `len(code)`, in bytes of UTF-8.
unfoldable pub byte_length : String → ℕ
byte_length String.[] = 0
byte_length (String.◌∷◌ c s) =
    (if ltb (code c) 0x80
      then 1
      else if ltb (code c) 0x800
      then 2
      else if ltb (code c) 0x10000
      then 3
      else 4)
    + byte_length s

-- `mac` is the HMAC of a code for the challenge's phone number.
unfoldable pub is_right : PhoneChallenge → (String → String → String) → String → Bool
is_right v mac digits = eqb (byte_length digits) 6 && v.hash == mac v.phone digits

abbrev pub tried : PhoneChallenge → PhoneChallenge
tried v = record v {
  attempts = suc v.attempts;
  state = if leb max_attempts (suc v.attempts) then "locked" else v.state;
}

abbrev pub wrong_code : PhoneChallenge → Error
wrong_code v = if leb max_attempts (suc v.attempts) then limited else invalid

abbrev pub confirmed : PhoneChallenge → PhoneChallenge
confirmed v = record v { attempts = suc v.attempts; state = ""; hash = ""; phone = "" }

-- The transaction of `Confirm`: the phone number and the result.
unfoldable pub confirm_rows :
    String → String → String → (String → String → String) → String → Change (String × Option Error)
confirm_rows own_name proof_name user mac digits at rows =
    let own = get_notification own_name rows in
    let v = own.verification in
    if not (is_in "code" v at)
    then keep ("", some expired) rows
    else if leb max_attempts v.attempts
    then keep ("", some limited) rows
    else if not (is_right v mac digits)
    then put ("", some (wrong_code v)) own_name (with_challenge own (tried v)) rows
    else ok (
      (v.phone, none),
      insert own_name (with_challenge own (confirmed v))
          (insert proof_name (proof_entry v.phone user at) rows),
    )

abbrev pub phone_or_error : String × Option Error → Call String
phone_or_error (phone, none) = return phone
phone_or_error (phone, some e) = fail e

-- `Confirm`
unfoldable pub confirm : Env → Identity → String → String → String → Call String
confirm env identity provider user digits = do
  answer ← transact env (challenge_key env provider user ∷ proof_key env provider user ∷ []) (
      confirm_rows (challenge_key env provider user) (proof_key env provider user) user
        (identity.mac provider user) digits)
  phone_or_error answer
