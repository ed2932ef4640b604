-- ===== src/Notifications/Once/ConsentCalls.antt =====
-- The calls on consents (internal/application/notifications) do only quiet steps.
use omnichannel_booking_assi.Prelude.{String, Bool, not, ◌&&◌, ◌==◌, refl, is_empty}
use omnichannel_booking_assi.Domain.Errors.{Result, ok, err}
use omnichannel_booking_assi.Domain.Rules.{if_rule}
use omnichannel_booking_assi.Domain.Phone.{normalize_phone}
use omnichannel_booking_assi.Notifications.Entry.{Contact}
use omnichannel_booking_assi.Notifications.Process.{Call}
use omnichannel_booking_assi.Notifications.Service.{Env, key}
use omnichannel_booking_assi.Notifications.Contacts as Contacts
use omnichannel_booking_assi.Notifications.Once.Kinds.{key-ne}
use omnichannel_booking_assi.Notifications.Once.Tokens.{
  Quiet, bind-Quiet, transact-Quiet, done-Quiet,
}
use omnichannel_booking_assi.Notifications.Once.Changes.{Apart}
use omnichannel_booking_assi.Notifications.Once.Consents as Consents
use omnichannel_booking_assi.Notifications.Once.Calls.{get-Quiet}

module _ (env : Env) where
  with_number-Quiet :
      {A : Type 0} (r : Result String) (next : String → Call A)
      → ((phone : String) → Quiet env (next phone))
      → Quiet env (Contacts.with_number r next)
  with_number-Quiet (ok phone) next h = h phone
  with_number-Quiet (err e) next h = done-Quiet env _

  pub allow_phone-Quiet :
      (raw_phone lang : String) → Quiet env (Contacts.allow_phone env raw_phone lang)
  unfolding Contacts.allow_phone
  allow_phone-Quiet raw_phone lang =
      with_number-Quiet (normalize_phone env.parse raw_phone) _ (λ phone.
        if_rule (Quiet env) (not (Contacts.is_language lang)) (λ _. done-Quiet env _)
          (λ _. transact-Quiet env _ _ (
            Consents.allow_rows-Quiet env (key env "booking_phone" phone)
              (key env "telegram_phone" phone) phone lang
              (λ x. key-ne env "booking_phone" "delivery" phone x refl))))

  pub block_phone-Quiet : (raw_phone : String) → Quiet env (Contacts.block_phone env raw_phone)
  unfolding Contacts.block_phone
  block_phone-Quiet raw_phone = with_number-Quiet (normalize_phone env.parse raw_phone) _ (λ phone.
      transact-Quiet env _ _ (λ x at rows.
        Consents.block_rows-Keeps env (key env "delivery" x) (Contacts.block_names env phone) phone
          at rows))

  pub request_contact-Quiet :
      (chat lang : String) → Quiet env (Contacts.request_contact env chat lang)
  unfolding Contacts.request_contact
  request_contact-Quiet chat lang =
      transact-Quiet env _ _
        (Consents.request_row-Quiet env (key env "telegram_chat" chat) chat lang)

  phone-Apart : (phone : String) → Apart env (key env "telegram_phone" phone)
  phone-Apart phone = λ x. key-ne env "telegram_phone" "delivery" phone x refl

  old_name-ApartIfAny :
      (old : Contact) (phone : String) → Consents.ApartIfAny env (Contacts.old_name env old phone)
  old_name-ApartIfAny old phone =
      if_rule (Consents.ApartIfAny env) (not (is_empty old.phone) && not (old.phone == phone))
        (λ _. phone-Apart old.phone) (λ _. tt)

  pub link_telegram-Quiet :
      (chat raw_phone : String) → Quiet env (Contacts.link_telegram env chat raw_phone)
  unfolding Contacts.link_telegram
  link_telegram-Quiet chat raw_phone =
      with_number-Quiet (normalize_phone env.parse raw_phone) _ (λ phone.
        bind-Quiet env _ _ (get-Quiet env (key env "telegram_chat" chat)) (λ old.
          transact-Quiet env _ _ (
            Consents.link_rows-Quiet env (key env "telegram_chat" chat)
              (key env "telegram_phone" phone) (Contacts.old_name env old.contact phone) chat phone
              old.contact.phone (λ x. key-ne env "telegram_chat" "delivery" chat x refl)
              (phone-Apart phone) (old_name-ApartIfAny old.contact phone))))

  pub unlink_telegram-Quiet : (chat : String) → Quiet env (Contacts.unlink_telegram env chat)
  unfolding Contacts.unlink_telegram
  unlink_telegram-Quiet chat =
      bind-Quiet env _ _ (get-Quiet env (key env "telegram_chat" chat)) (λ old.
        if_rule (Quiet env) (is_empty old.contact.phone) (λ _. done-Quiet env _)
          (λ _. transact-Quiet env _ _ (
            Consents.unlink_rows-Quiet env (key env "telegram_chat" chat)
              (key env "telegram_phone" old.contact.phone) chat old.contact.phone)))

  pub link_whatsapp-Quiet :
      (raw_phone lang : String) (enabled : Bool)
      → Quiet env (Contacts.link_whatsapp env raw_phone lang enabled)
  unfolding Contacts.link_whatsapp
  link_whatsapp-Quiet raw_phone lang enabled =
      with_number-Quiet (normalize_phone env.parse raw_phone) _ (λ phone. transact-Quiet env _ _ (
        Consents.put-Quiet env (key env "whatsapp_phone" phone)
          (Contacts.whatsapp_row enabled phone lang)
          (λ x. key-ne env "whatsapp_phone" "delivery" phone x refl)))

  pub resolve_language-Quiet :
      (raw_phone hint : String) (explicit : Bool)
      → Quiet env (Contacts.resolve_language env raw_phone hint explicit)
  unfolding Contacts.resolve_language
  resolve_language-Quiet raw_phone hint explicit =
      with_number-Quiet (normalize_phone env.parse raw_phone) _ (λ phone.
        if_rule (Quiet env) (not (is_empty hint) && not (Contacts.is_language hint))
          (λ _. done-Quiet env _)
          (λ _.
            transact-Quiet env _ _
              (Consents.resolve_row-Quiet env (key env "language_phone" phone) hint explicit)))

  direct-Apart : (provider id : String) → Apart env (Contacts.direct_key env provider id)
  unfolding Contacts.direct_key
  direct-Apart provider id = λ x. key-ne env "direct_outbound" "delivery" _ x refl

  pub record_direct_send-Quiet :
      (provider id : String) → Quiet env (Contacts.record_direct_send env provider id)
  unfolding Contacts.record_direct_send
  record_direct_send-Quiet provider id = transact-Quiet env _ _ (
      Consents.put-Quiet env (Contacts.direct_key env provider id) Contacts.direct_row
        (direct-Apart provider id))
