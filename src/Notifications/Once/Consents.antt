-- ===== src/Notifications/Once/Consents.antt =====
-- The transactions on consents (internal/application/notifications: service.go, preferences.go and
-- direct_echo.go) keep the attempts of all delivery rows.
use omnichannel_booking_assi.Prelude.{
  String, Bool, not, ◌&&◌, ◌||◌, Option, none, some, List, [], ◌∷◌, ◌==◌, refl, ◌∙◌, ◌*◌, is_empty,
}
use omnichannel_booking_assi.Prelude.Dict.{insert}
use omnichannel_booking_assi.Prelude.Time.{Time, after, is_zero, sub, minute}
use omnichannel_booking_assi.Prelude.Int.{pos, ltb_ℤ}
use omnichannel_booking_assi.Domain.Rules.{if_rule}
use omnichannel_booking_assi.Memory.Notifications.{Rows, get_notification}
use omnichannel_booking_assi.Notifications.Entry.{Entry, empty_entry}
use omnichannel_booking_assi.Notifications.Service.{Env, key, put}
use omnichannel_booking_assi.Notifications.Contacts as Contacts
use omnichannel_booking_assi.Memory.Notifications.Rows.{Keeps, insert-Keeps, insert-Keeps_ne}
use omnichannel_booking_assi.Notifications.Once.Tokens.{QuietChange}
use omnichannel_booking_assi.Notifications.Once.Changes.{Kept, Apart}

module _ (env : Env) where
  pub allow_rows-Quiet :
      (booking_name telegram_name phone lang : String)
      → Apart env booking_name
      → QuietChange env (Contacts.allow_rows booking_name telegram_name phone lang)
  unfolding Contacts.allow_rows
  allow_rows-Quiet booking_name telegram_name phone lang apart = λ x at rows.
      let d = key env "delivery" x in
      let marked = insert booking_name (Contacts.allowed_row phone lang at) rows in
      insert-Keeps d telegram_name (Contacts.unblocked (get_notification telegram_name marked))
        marked refl
      ∙ insert-Keeps_ne d booking_name (Contacts.allowed_row phone lang at) rows (apart x)

  pub block_rows-Keeps :
      (d : String) (names : List String) (phone : String) (at : Time) (rows : Rows)
      → Keeps d rows (Contacts.block_rows names phone at rows)
  unfolding Contacts.block_rows
  block_rows-Keeps d [] phone at rows = refl
  block_rows-Keeps d (name ∷ names) phone at rows =
      let row = Contacts.blocked_row (get_notification name rows) phone at in
      block_rows-Keeps d names phone at (insert name row rows) ∙ insert-Keeps d name row rows refl

  pub request_row-Quiet :
      (name chat lang : String) → QuietChange env (Contacts.request_row name chat lang)
  unfolding Contacts.request_row
  request_row-Quiet name chat lang =
      λ x at rows. insert-Keeps (key env "delivery" x) name _ rows refl

  -- A row that may be absent is apart from the delivery rows.
  abbrev pub ApartIfAny : Option String → Type 0
  ApartIfAny none = Unit
  ApartIfAny (some name) = Apart env name

  clear_old-Keeps :
      (x : String) (old : Option String) (chat : String) (rows : Rows)
      → ApartIfAny old
      → Keeps (key env "delivery" x) rows (Contacts.clear_old old chat rows)
  clear_old-Keeps x none chat rows apart = refl
  clear_old-Keeps x (some name) chat rows apart =
      if_rule (Keeps (key env "delivery" x) rows)
        ((get_notification name rows).contact.chat == chat)
        (λ _. insert-Keeps_ne (key env "delivery" x) name empty_entry rows (apart x)) (λ _. refl)

  pub link_rows-Quiet :
      (chat_name phone_name : String) (old : Option String) (chat phone old_phone : String)
      → Apart env chat_name
      → Apart env phone_name
      → ApartIfAny old
      → QuietChange env (Contacts.link_rows chat_name phone_name old chat phone old_phone)
  unfolding Contacts.link_rows
  link_rows-Quiet chat_name phone_name old chat phone old_phone own by apart = λ x at rows.
      let d = key env "delivery" x in
      let row = get_notification chat_name rows in
      let by_phone = get_notification phone_name rows in
      let linked = Contacts.with_contact row (Contacts.linked_contact row.contact phone at) in
      let cleared = Contacts.clear_old old chat rows in
      if_rule (Kept d rows) (not (row.contact.phone == old_phone)) (λ _. tt)
        (λ _.
          if_rule (Kept d rows)
            (row.contact.phone == phone
              && after row.contact.expires_at at
              && by_phone.contact.chat == chat)
            (λ _. refl)
            (λ _.
              if_rule (Kept d rows)
                (is_zero row.contact.requested_at
                  || ltb_ℤ (pos (10 * minute)) (sub at row.contact.requested_at))
                (λ _. tt)
                (λ _.
                  if_rule (Kept d rows)
                    (not (is_empty by_phone.contact.chat)
                      && not (by_phone.contact.chat == chat)
                      && after by_phone.contact.expires_at at)
                    (λ _. tt)
                    (λ _.
                      insert-Keeps_ne d phone_name linked (insert chat_name linked cleared) (by x)
                      ∙ insert-Keeps_ne d chat_name linked cleared (own x)
                      ∙ clear_old-Keeps x old chat rows apart))))

  pub unlink_rows-Quiet :
      (chat_name phone_name chat old_phone : String)
      → QuietChange env (Contacts.unlink_rows chat_name phone_name chat old_phone)
  unfolding Contacts.unlink_rows
  unlink_rows-Quiet chat_name phone_name chat old_phone = λ x at rows.
      let d = key env "delivery" x in
      let own = get_notification chat_name rows in
      let marked = insert chat_name (Contacts.withdrawn own) rows in
      let by_phone = get_notification phone_name marked in
      if_rule (Kept d rows) (not (own.contact.phone == old_phone)) (λ _. tt)
        (λ _.
          if_rule (Kept d rows) (by_phone.contact.chat == chat)
            (λ _.
              insert-Keeps d phone_name (Contacts.withdrawn by_phone) marked refl
              ∙ insert-Keeps d chat_name (Contacts.withdrawn own) rows refl)
            (λ _. insert-Keeps d chat_name (Contacts.withdrawn own) rows refl))

  pub put-Quiet :
      (name : String) (e : Time → Entry)
      → Apart env name
      → QuietChange env (λ at. put tt name (e at))
  put-Quiet name e apart =
      λ x at rows. insert-Keeps_ne (key env "delivery" x) name (e at) rows (apart x)

  pub resolve_row-Quiet :
      (name hint : String) (explicit : Bool)
      → QuietChange env (Contacts.resolve_row name hint explicit)
  unfolding Contacts.resolve_row
  resolve_row-Quiet name hint explicit = λ x at rows.
      let row = get_notification name rows in
      if_rule (Kept (key env "delivery" x) rows) (Contacts.sets_language row hint explicit)
        (λ _. insert-Keeps (key env "delivery" x) name _ rows refl) (λ _. refl)
