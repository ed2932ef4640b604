-- ===== src/Notifications/Contacts/Link.antt =====
-- `LinkTelegram` (internal/application/notifications/service.go): what a link that succeeds means.
use omnichannel_booking_assi.Prelude.{
  subst, str_cases, ◌≡◌, ◌≢◌, refl, sym, ap, ◌∙◌, ◌⊎◌, inl, inr, ◌+◌, ◌*◌, String, Bool, true,
  false, not, ◌&&◌, ◌||◌, ◌==◌, Option, none, some, arith, eq_iff, is_empty,
}
use omnichannel_booking_assi.Prelude.Int.{pos, ltb_ℤ}
use omnichannel_booking_assi.Prelude.Dict.{insert}
use omnichannel_booking_assi.Prelude.Time.{Time, after, sub, is_zero, minute, day}
use omnichannel_booking_assi.Domain.Errors.{Result, ok, err}
use omnichannel_booking_assi.Domain.Rules.{if_rule}
use omnichannel_booking_assi.Memory.Notifications.{Rows, get_notification}
use omnichannel_booking_assi.Memory.Notifications.Rows.{get-insert_self, get-insert_ne}
use omnichannel_booking_assi.Notifications.Entry.{Contact, empty_entry}
use omnichannel_booking_assi.Notifications.Routing.{telegram}
use omnichannel_booking_assi.Notifications.Contacts.{
  link_rows, linked_contact, with_contact, clear_old,
}

-- The request was made by `/notifications` at most ten minutes before.
abbrev pub is_fresh : Contact → Time → Bool
is_fresh own at =
    not (is_zero own.requested_at || ltb_ℤ (pos (10 * minute)) (sub at own.requested_at))

-- Another chat has the number, and its link still holds.
abbrev pub is_taken : Contact → String → Time → Bool
is_taken by_phone chat at =
    not (is_empty by_phone.chat) && not (by_phone.chat == chat) && after by_phone.expires_at at

-- A consent for the number in Telegram, for 180 days from now, with no open request.
abbrev pub IsLinked : Contact → String → Time → Contact → Type 0
IsLinked own phone at c =
    (c.phone ≡ phone)
    × (c.channel ≡ telegram)
    × (c.expires_at ≡ at + 180 * day)
    × (c.blocked ≡ false)
    × (c.requested_at ≡ 0)
    × (c.chat ≡ own.chat)
    × (c.language ≡ own.language)

-- A row that is neither the chat's nor the number's: that of the old number is emptied if it is this
-- chat's.
abbrev pub Cleared : Option String → String → String → Rows → Rows → Type 0
Cleared old chat other rows rows' =
    (old ≡ some other)
      × ((get_notification other rows).contact.chat ≡ chat)
      × (get_notification other rows' ≡ empty_entry)
    ⊎ ((old ≢ some other) ⊎ ((get_notification other rows).contact.chat ≢ chat))
      × (get_notification other rows' ≡ get_notification other rows)

-- What the rows are after a link.
abbrev pub Linked :
    String → String → Option String → String → String → String → Time → Rows → Rows → Type 0
Linked chat_name phone_name old other chat phone at rows rows' =
    let own = get_notification chat_name rows in
    let by_phone = get_notification phone_name rows in
    ((own.contact.phone == phone) ≡ true)
      × ((by_phone.contact.chat == chat) ≡ true)
      × (after own.contact.expires_at at ≡ true)
      × (rows' ≡ rows)
    ⊎ ((is_fresh own.contact at ≡ true)
        × (is_taken by_phone.contact chat at ≡ false)
        × ((c : Contact) × IsLinked own.contact phone at c
            × (get_notification chat_name rows' ≡ record own { contact = c })
            × (get_notification phone_name rows' ≡ record own { contact = c }))
        × Cleared old chat other rows rows')

Cleared-kept :
    (old : Option String) (chat other : String) (rows rows' rows'' : Rows)
    → get_notification other rows'' ≡ get_notification other rows'
    → Cleared old chat other rows rows'
    → Cleared old chat other rows rows''
Cleared-kept old chat other rows rows' rows'' kept (inl (is_old, mine, empty)) =
    inl (is_old, mine, kept ∙ empty)
Cleared-kept old chat other rows rows' rows'' kept (inr (why, stays)) = inr (why, kept ∙ stays)

clear_old-Cleared :
    (old : Option String) (chat other : String) (rows : Rows)
    → Cleared old chat other rows (clear_old old chat rows)
clear_old-Cleared none chat other rows = inr (inl (λ e. cc), refl)
clear_old-Cleared (some name) chat other rows =
    let mine = (get_notification name rows).contact.chat in
    if_rule (Cleared (some name) chat other rows) (mine == chat)
      (λ own. elim (str_cases name other) [
        | inl same ↦ inl (
          ap some same,
          subst (λ n. (get_notification n rows).contact.chat ≡ chat) same
              ((eq_iff mine chat).0 own),
          subst (λ n. get_notification other (insert n empty_entry rows) ≡ empty_entry) (sym same)
              (get-insert_self other empty_entry rows),
        )
        | inr apart ↦
            inr (
              inl (λ e. apart (ground (arith, e))),
              get-insert_ne name other empty_entry rows apart,
            )
      ])
      (λ foreign. inr (
        elim (str_cases name other) [
          | inl same ↦ inr (λ e. ground (arith, eq_iff mine chat, foreign, e, same))
          | inr apart ↦ inl (λ e. apart (ground (arith, e)))
        ],
        refl,
      ))

-- What the property says of each result.
abbrev OnSuccess :
    String
    → String
    → Option String
    → String
    → String
    → String
    → String
    → Time
    → Rows
    → Result (Unit {0} × Rows)
    → Type 0
OnSuccess chat_name phone_name old other chat phone old_phone at rows (err e) = Unit
OnSuccess chat_name phone_name old other chat phone old_phone at rows (ok (_, rows')) =
    ((get_notification chat_name rows).contact.phone ≡ old_phone)
    × Linked chat_name phone_name old other chat phone at rows rows'

-- The two rows of the link, and the others, after both are written.
written-Linked :
    (chat_name phone_name : String) (old : Option String) (other chat phone : String) (at : Time)
    (rows : Rows)
    → chat_name ≢ phone_name
    → other ≢ chat_name
    → other ≢ phone_name
    → is_fresh (get_notification chat_name rows).contact at ≡ true
    → is_taken (get_notification phone_name rows).contact chat at ≡ false
    → let own = get_notification chat_name rows in
      let linked = with_contact own (linked_contact own.contact phone at) in
      Linked chat_name phone_name old other chat phone at rows
        (insert phone_name linked (insert chat_name linked (clear_old old chat rows)))
written-Linked chat_name phone_name old other chat phone at rows apart ne ne' fresh free =
    let own = get_notification chat_name rows in
    let linked = with_contact own (linked_contact own.contact phone at) in
    let cleared = clear_old old chat rows in
    let kept : get_notification other (insert phone_name linked (insert chat_name linked cleared))
        ≡ get_notification other cleared =
      get-insert_ne phone_name other linked (insert chat_name linked cleared) (λ e. ne' (sym e))
      ∙ get-insert_ne chat_name other linked cleared (λ e. ne (sym e)) in
    inr (
      fresh,
      free,
      (
        linked_contact own.contact phone at,
        (refl, refl, refl, refl, refl, refl, refl),
        get-insert_ne phone_name chat_name linked (insert chat_name linked cleared)
              (λ e. apart (sym e))
            ∙ get-insert_self chat_name linked cleared,
        get-insert_self phone_name linked (insert chat_name linked cleared),
      ),
      Cleared-kept old chat other rows cleared _ kept (clear_old-Cleared old chat other rows),
    )

link_rows-OnSuccess :
    (chat_name phone_name : String) (old : Option String) (other chat phone old_phone : String)
    (at : Time) (rows : Rows)
    → chat_name ≢ phone_name
    → other ≢ chat_name
    → other ≢ phone_name
    → OnSuccess chat_name phone_name old other chat phone old_phone at rows
        (link_rows chat_name phone_name old chat phone old_phone at rows)
unfolding link_rows
link_rows-OnSuccess chat_name phone_name old other chat phone old_phone at rows apart ne ne' =
    let own = get_notification chat_name rows in
    let by_phone = get_notification phone_name rows in
    let P = OnSuccess chat_name phone_name old other chat phone old_phone at rows in
    if_rule P (not (own.contact.phone == old_phone)) (λ _. tt)
      (λ same.
        let read = (eq_iff own.contact.phone old_phone).0 (ground (arith, same)) in
        if_rule P
          (own.contact.phone == phone
            && after own.contact.expires_at at
            && by_phone.contact.chat == chat)
          (λ already. (
            read,
            inl (ground (arith, already), ground (arith, already), ground (arith, already), refl),
          ))
          (λ _.
            if_rule P
              (is_zero own.contact.requested_at
                || ltb_ℤ (pos (10 * minute)) (sub at own.contact.requested_at))
              (λ _. tt)
              (λ fresh.
                if_rule P (is_taken by_phone.contact chat at) (λ _. tt)
                  (λ free. (
                    read,
                    written-Linked chat_name phone_name old other chat phone at rows apart ne ne'
                        (ap not fresh) free,
                  )))))

-- If the transaction of `LinkTelegram` succeeds, the chat has the number that was read before the
-- transaction, and one of two things holds. The chat and the number are linked already, the link
-- holds, and nothing changes. Or the customer's request is at most ten minutes old and no other
-- chat has a link to the number that still holds; then the rows of the chat and of the number both
-- become the chat's row with the number, Telegram as the channel, a consent that ends in 180 days,
-- no block and no open request, and with the same chat and language; the row of the chat's old
-- number, if it was read and is this chat's, is emptied; and every other row stays. The conditions
-- are that the two rows have different keys, and that the other row's key is neither.
pub link_rows-Linked :
    (chat_name phone_name : String) (old : Option String) (other chat phone old_phone : String)
    (at : Time) (rows rows' : Rows)
    → chat_name ≢ phone_name
    → other ≢ chat_name
    → other ≢ phone_name
    → link_rows chat_name phone_name old chat phone old_phone at rows ≡ ok (tt, rows')
    → ((get_notification chat_name rows).contact.phone ≡ old_phone)
      × Linked chat_name phone_name old other chat phone at rows rows'
link_rows-Linked chat_name phone_name old other chat phone old_phone at rows rows' apart ne ne' h =
    subst (OnSuccess chat_name phone_name old other chat phone old_phone at rows) h
      (link_rows-OnSuccess chat_name phone_name old other chat phone old_phone at rows apart ne ne')
