-- ===== src/Notifications/Routing/Consent.antt =====
-- A plan goes where the recipient is known and has agreed, and nowhere else.
use omnichannel_booking_assi.Prelude.{
  ◌≡◌, ◌≢◌, refl, inl, inr, String, Bool, true, false, not, ◌&&◌, ◌==◌, Option, none, some, List,
  [], ◌∷◌, All, All-append, arith, eq_iff, is_empty, is_empty→ne, if◌then◌else◌, Bool-cases,
}
use omnichannel_booking_assi.Prelude.Spaces.{trim_space}
use omnichannel_booking_assi.Domain.Rules.{if_rule}
use omnichannel_booking_assi.Domain.Errors.{Result, ok, err}
use omnichannel_booking_assi.Domain.Phone.{normalize_phone}
use omnichannel_booking_assi.Notifications.Routing.{
  Channel, telegram, whatsapp, sms, other, Purpose, verification, Recipient, Policy, Target,
  is_verification, order_of, telegram_target, whatsapp_target, target_of, prepend,
  messenger_targets, sms_targets, targets, plan,
}

-- What a target may be, for a recipient of this normal phone number.
pub data IsAllowed (policy : Policy) (recipient : Recipient) (purpose : Purpose) (phone : String)
    : Target → Type 0 where
  -- The chat that was verified for the number.
  chat :
      purpose ≢ verification
      → policy.enabled telegram ≡ true
      → recipient.telegram_opted_out ≡ false
      → recipient.telegram_phone ≡ phone
      → trim_space recipient.telegram_chat ≢ ""
      → IsAllowed policy recipient purpose phone (record {
        channel = telegram;
        address = recipient.telegram_chat;
        template_id = "";
        studio_account = false;
      })
  -- The studio's own account, for a customer who asked for updates.
  account :
      purpose ≢ verification
      → policy.enabled telegram ≡ true
      → recipient.telegram_opted_out ≡ false
      → policy.telegram_account ≡ true
      → recipient.booking_updates_requested ≡ true
      → IsAllowed policy recipient purpose phone
          (record { channel = telegram; address = phone; template_id = ""; studio_account = true })
  -- An approved template to the number that opted in.
  template :
      purpose ≢ verification
      → policy.enabled whatsapp ≡ true
      → recipient.whatsapp_opted_in ≡ true
      → recipient.whatsapp_opt_in_phone ≡ phone
      → trim_space (policy.templates purpose) ≢ ""
      → IsAllowed policy recipient purpose phone (record {
        channel = whatsapp;
        address = phone;
        template_id = trim_space (policy.templates purpose);
        studio_account = false;
      })
  text :
      policy.enabled sms ≡ true
      → IsAllowed policy recipient purpose phone
          (record { channel = sms; address = phone; template_id = ""; studio_account = false })

module _ (policy : Policy) (recipient : Recipient) (purpose : Purpose) (phone : String) where
  abbrev AllAllowed : List Target → Type 0
  AllAllowed ts = All (IsAllowed policy recipient purpose phone) ts

  abbrev OptionAllowed : Option Target → Type 0
  OptionAllowed none = Unit
  OptionAllowed (some t) = IsAllowed policy recipient purpose phone t

  prepend_allowed :
      (o : Option Target) (ts : List Target)
      → OptionAllowed o
      → AllAllowed ts
      → AllAllowed (prepend o ts)
  prepend_allowed none ts h k = k
  prepend_allowed (some t) ts h k = (h, k)

  telegram_allowed :
      purpose ≢ verification
      → policy.enabled telegram ≡ true
      → OptionAllowed (telegram_target policy recipient phone)
  unfolding telegram_target
  telegram_allowed ne on =
      let known : Bool =
        not (is_empty (trim_space recipient.telegram_chat)) && recipient.telegram_phone == phone in
      let to_chat : Option Target = some (record {
        channel = telegram;
        address = recipient.telegram_chat;
        template_id = "";
        studio_account = false;
      }) in
      let by_account : Option Target =
        if policy.telegram_account && recipient.booking_updates_requested
        then some (record {
          channel = telegram;
          address = phone;
          template_id = "";
          studio_account = true;
        })
        else none in
      if_rule OptionAllowed recipient.telegram_opted_out {x = none}
        {y = if known then to_chat else by_account} (λ _. tt)
        (λ stay.
          if_rule OptionAllowed known {x = to_chat} {y = by_account}
            (λ k.
              chat ne on stay (ground (arith, eq_iff recipient.telegram_phone phone))
                (is_empty→ne (trim_space recipient.telegram_chat) (ground arith)))
            (λ _.
              if_rule OptionAllowed (policy.telegram_account && recipient.booking_updates_requested)
                (λ asked. account ne on stay (ground arith) (ground arith)) (λ _. tt)))

  whatsapp_allowed :
      purpose ≢ verification
      → policy.enabled whatsapp ≡ true
      → OptionAllowed (whatsapp_target policy recipient purpose phone)
  unfolding whatsapp_target
  whatsapp_allowed ne on =
      let t = trim_space (policy.templates purpose) in
      elim (Bool-cases (
        recipient.whatsapp_opted_in
        && recipient.whatsapp_opt_in_phone == phone
        && not (is_empty t))) [
          | inr refused ↦ rw refused tt
          | inl agreed ↦ rw agreed (
              template ne on (ground arith)
                (ground (arith, eq_iff recipient.whatsapp_opt_in_phone phone))
                (is_empty→ne t (ground arith)))
        ]

  target_allowed :
      (c : Channel)
      → purpose ≢ verification
      → OptionAllowed (target_of policy recipient purpose phone c)
  unfolding target_of
  target_allowed telegram ne = elim (Bool-cases (policy.enabled telegram)) [
    | inl on ↦ rw on (telegram_allowed ne on)
    | inr off ↦ rw off tt
  ]
  target_allowed whatsapp ne = elim (Bool-cases (policy.enabled whatsapp)) [
    | inl on ↦ rw on (whatsapp_allowed ne on)
    | inr off ↦ rw off tt
  ]
  target_allowed sms ne = tt
  target_allowed (other s) ne = tt

  messengers_allowed :
      (cs : List Channel)
      → purpose ≢ verification
      → AllAllowed (messenger_targets policy recipient purpose phone cs)
  unfolding messenger_targets
  messengers_allowed [] ne = tt
  messengers_allowed (c ∷ cs) ne =
      prepend_allowed (target_of policy recipient purpose phone c) _ (target_allowed c ne)
        (messengers_allowed cs ne)

  sms_allowed : AllAllowed (sms_targets policy phone)
  sms_allowed = elim (Bool-cases (policy.enabled sms)) [
    | inl on ↦ rw on (text on, tt)
    | inr off ↦ rw off tt
  ]

  targets_allowed : AllAllowed (targets policy recipient purpose phone)
  unfolding targets
  targets_allowed = elim (Bool-cases (is_verification purpose)) [
    | inl e ↦ rw e sms_allowed
    | inr e ↦ rw e (
        All-append (IsAllowed policy recipient purpose phone) _ (sms_targets policy phone)
          (messengers_allowed (order_of policy) (λ v. ground arith)) sms_allowed)
  ]

-- Every target of a plan is allowed for the recipient's normal number: a Telegram chat that was
-- verified for that number, or the studio's account for a customer who asked for updates, in both
-- cases unless the customer opted out; a WhatsApp template to the number that opted in; or a text
-- message. The channel is enabled, and codes go by text message only.
pub plan-IsAllowed :
    (parse : String → Option String) (policy : Policy) (recipient : Recipient) (purpose : Purpose)
    (ts : List Target)
    → plan parse policy recipient purpose ≡ ok ts
    → (phone : String) × (normalize_phone parse recipient.phone ≡ ok phone)
      × All (IsAllowed policy recipient purpose phone) ts
unfolding plan
plan-IsAllowed parse policy recipient purpose ts h = go (normalize_phone parse recipient.phone) refl
  where
    go :
        (r : Result String)
        → normalize_phone parse recipient.phone ≡ r
        → (phone : String) × (normalize_phone parse recipient.phone ≡ ok phone)
          × All (IsAllowed policy recipient purpose phone) ts
    go (err e) eq = absurd (ground arith)
    go (ok phone) eq =
        let same : targets policy recipient purpose phone ≡ ts = ground arith in
        (phone, eq, rw (← same) (targets_allowed policy recipient purpose phone))
