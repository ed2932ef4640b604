-- ===== src/Notifications/Routing.antt =====
-- internal/application/notifications/routing.go: which channels a notification is planned for.
pub mod Consent
pub mod Order
use omnichannel_booking_assi.Prelude.{
  String, Bool, true, false, not, ◌&&◌, ◌||◌, Option, none, some, List, [], ◌∷◌, ◌++◌, ◌==◌,
  is_empty, if◌then◌else◌,
}
use omnichannel_booking_assi.Prelude.Spaces.{trim_space}
use omnichannel_booking_assi.Domain.Errors.{Error, Result, ok, err, message}
use omnichannel_booking_assi.Domain.Phone.{normalize_phone}

-- The string types have these constants.
pub data Channel : Type 0 where
  telegram whatsapp sms : Channel
  other : String → Channel

pub data Purpose : Type 0 where
  booking_created booking_changed booking_cancelled booking_reminder verification : Purpose
  other_purpose : String → Purpose

pub record Recipient : Type 0 where
  pub phone : String
  pub telegram_chat : String
  pub telegram_phone : String
  pub whatsapp_opted_in : Bool
  pub whatsapp_opt_in_phone : String
  pub telegram_opted_out : Bool
  pub booking_updates_requested : Bool

-- The two maps are functions: a missing key has the zero value.
pub record Policy : Type 0 where
  pub messenger_order : List Channel
  pub enabled : Channel → Bool
  pub templates : Purpose → String
  pub telegram_account : Bool

pub record Target : Type 0 where
  pub channel : Channel
  pub address : String
  pub template_id : String
  pub studio_account : Bool

abbrev pub is_supported : Purpose → Bool
is_supported (other_purpose s) = false
is_supported p = true

abbrev pub is_verification : Purpose → Bool
is_verification verification = true
is_verification p = false

abbrev pub same_channel : Channel → Channel → Bool
same_channel telegram telegram = true
same_channel whatsapp whatsapp = true
same_channel sms sms = true
same_channel (other s) (other t) = s == t
same_channel c d = false

abbrev pub is_messenger : Channel → Bool
is_messenger telegram = true
is_messenger whatsapp = true
is_messenger c = false

-- `seen[channel]`
abbrev pub member : Channel → List Channel → Bool
member c [] = false
member c (d ∷ ds) = same_channel c d || member c ds

-- The loop that checks the order.
unfoldable pub valid_order : List Channel → List Channel → Bool
valid_order seen [] = true
valid_order seen (c ∷ cs) =
    let rest = valid_order (c ∷ seen) cs in
    if not (is_messenger c) || member c seen then false else rest

abbrev pub order_of : Policy → List Channel
order_of policy = elim policy.messenger_order [ [] ↦ telegram ∷ whatsapp ∷ [] | c ∷ cs ↦ c ∷ cs ]

-- The case of Telegram.
unfoldable pub telegram_target : Policy → Recipient → String → Option Target
telegram_target policy recipient phone =
    if recipient.telegram_opted_out
    then none
    else if not (is_empty (trim_space recipient.telegram_chat)) && recipient.telegram_phone == phone
    then some (record {
      channel = telegram;
      address = recipient.telegram_chat;
      template_id = "";
      studio_account = false;
    })
    else if policy.telegram_account && recipient.booking_updates_requested
    then some
        (record { channel = telegram; address = phone; template_id = ""; studio_account = true })
    else none

-- The case of WhatsApp.
unfoldable pub whatsapp_target : Policy → Recipient → Purpose → String → Option Target
whatsapp_target policy recipient purpose phone =
    let template = trim_space (policy.templates purpose) in
    if recipient.whatsapp_opted_in
      && recipient.whatsapp_opt_in_phone == phone
      && not (is_empty template)
    then some (record {
      channel = whatsapp;
      address = phone;
      template_id = template;
      studio_account = false;
    })
    else none

-- The body of the second loop: the target that a channel adds.
unfoldable pub target_of : Policy → Recipient → Purpose → String → Channel → Option Target
unfolding telegram_target whatsapp_target
target_of policy recipient purpose phone telegram =
    if not (policy.enabled telegram) then none else telegram_target policy recipient phone
target_of policy recipient purpose phone whatsapp =
    if not (policy.enabled whatsapp) then none else whatsapp_target policy recipient purpose phone
target_of policy recipient purpose phone c = none

abbrev pub prepend : Option Target → List Target → List Target
prepend none ts = ts
prepend (some t) ts = t ∷ ts

unfoldable pub messenger_targets :
    Policy → Recipient → Purpose → String → List Channel → List Target
unfolding target_of
messenger_targets policy recipient purpose phone [] = []
messenger_targets policy recipient purpose phone (c ∷ cs) =
    prepend (target_of policy recipient purpose phone c)
      (messenger_targets policy recipient purpose phone cs)

abbrev pub sms_targets : Policy → String → List Target
sms_targets policy phone =
    if policy.enabled sms
    then record { channel = sms; address = phone; template_id = ""; studio_account = false } ∷ []
    else []

-- The targets for a phone number and an order that are accepted.
unfoldable pub targets : Policy → Recipient → Purpose → String → List Target
unfolding messenger_targets
targets policy recipient purpose phone =
    (if is_verification purpose
      then []
      else messenger_targets policy recipient purpose phone (order_of policy))
    ++ sms_targets policy phone

-- `Plan`; the parameter is the phone library's.
unfoldable pub plan : (String → Option String) → Policy → Recipient → Purpose → Result (List Target)
unfolding normalize_phone valid_order targets
plan parse policy recipient purpose =
    if not (is_supported purpose)
    then err (message "notifications: unsupported purpose")
    else elim (normalize_phone parse recipient.phone) [
      | err e ↦ err (message "notifications: invalid recipient phone")
      | ok phone ↦
          if valid_order [] (order_of policy)
          then ok (targets policy recipient purpose phone)
          else err (message "notifications: invalid messenger order")
    ]
