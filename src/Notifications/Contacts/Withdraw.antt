-- ===== src/Notifications/Contacts/Withdraw.antt =====
-- `BlockPhone` (internal/application/notifications/service.go): a withdrawal wins over every route that
-- `Deliver` could plan.
use omnichannel_booking_assi.Prelude.{
  ◌≡◌, refl, ap, ◌∙◌, inl, inr, String, Bool, true, false, ◌==◌, none, List, [], ◌∷◌, All, arith,
  eq_refl, if◌then◌else◌, Bool-cases,
}
use omnichannel_booking_assi.Prelude.Dict.{insert}
use omnichannel_booking_assi.Prelude.Time.{Time}
use omnichannel_booking_assi.Domain.Errors.{ok}
use omnichannel_booking_assi.Domain.Phone.{normalize_phone}
use omnichannel_booking_assi.Memory.Notifications.{
  Rows, get_notification, transact_notifications, read_rows,
}
use omnichannel_booking_assi.Memory.Notifications.Rows.{has, get-insert, transact-get}
use omnichannel_booking_assi.Notifications.Entry.{Entry, Snapshot}
use omnichannel_booking_assi.Notifications.Routing.{Purpose, Target, Policy, Recipient, plan, sms}
use omnichannel_booking_assi.Notifications.Routing.Consent.{
  IsAllowed, chat, account, template, text, plan-IsAllowed,
}
use omnichannel_booking_assi.Notifications.Process.{World, run}
use omnichannel_booking_assi.Notifications.Service.{Env, key, transact}
use omnichannel_booking_assi.Notifications.Service.Run.{run-transact}
use omnichannel_booking_assi.Notifications.Recipients.{
  Consents, policy_of, recipient_of, sms_requested,
}
use omnichannel_booking_assi.Notifications.Contacts.{
  block_rows, blocked_row, block_names, block_phone, with_number,
}

abbrev pub is_blocked : String → Rows → Bool
is_blocked name rows = (get_notification name rows).contact.blocked

insert-blocked :
    (d name : String) (row : Entry) (rows : Rows)
    → row.contact.blocked ≡ true
    → (name == d) ≡ true
    → is_blocked d (insert name row rows) ≡ true
insert-blocked d name row rows h p =
    ap (λ (e : Entry). e.contact.blocked)
      (get-insert name d row rows ∙ ap (λ b. if b then row else get_notification d rows) p)
    ∙ h

insert-blocked_other :
    (d name : String) (row : Entry) (rows : Rows)
    → (name == d) ≡ false
    → is_blocked d (insert name row rows) ≡ is_blocked d rows
insert-blocked_other d name row rows p =
    ap (λ (e : Entry). e.contact.blocked)
      (get-insert name d row rows ∙ ap (λ b. if b then row else get_notification d rows) p)

block_rows-still :
    (d : String) (names : List String) (phone : String) (at : Time) (rows : Rows)
    → is_blocked d rows ≡ true
    → is_blocked d (block_rows names phone at rows) ≡ true
unfolding block_rows
block_rows-still d [] phone at rows h = h
block_rows-still d (name ∷ names) phone at rows h =
    let row = blocked_row (get_notification name rows) phone at in
    block_rows-still d names phone at (insert name row rows) (elim (Bool-cases (name == d)) [
      | inl p ↦ insert-blocked d name row rows refl p
      | inr p ↦ insert-blocked_other d name row rows p ∙ h
    ])

block_rows-blocked :
    (d : String) (names : List String) (phone : String) (at : Time) (rows : Rows)
    → has d names ≡ true
    → is_blocked d (block_rows names phone at rows) ≡ true
unfolding block_rows
block_rows-blocked d [] phone at rows h = cc
block_rows-blocked d (name ∷ names) phone at rows h =
    let row = blocked_row (get_notification name rows) phone at in
    elim (Bool-cases (name == d)) [
      | inl p ↦
          block_rows-still d names phone at (insert name row rows)
            (insert-blocked d name row rows refl p)
      | inr p ↦ block_rows-blocked d names phone at (insert name row rows) (ground (arith, p, h))
    ]

-- The rows that `Deliver` reads, all at once.
abbrev pub consents_in : Env → Rows → String → Consents
consents_in env rows phone = record {
  telegram_row = get_notification (key env "telegram_phone" phone) rows;
  whatsapp_row = get_notification (key env "whatsapp_phone" phone) rows;
  policy_row = get_notification "policy" rows;
  staff_row = get_notification (key env "booking_phone" phone) rows;
  language_row = get_notification (key env "language_phone" phone) rows;
  web_row = get_notification (key env "web_phone" phone) rows;
}

run-block_phone :
    (env : Env) (raw_phone phone : String) (w : World)
    → normalize_phone env.parse raw_phone ≡ ok phone
    → env.repository_error w ≡ none
    → (run (block_phone env raw_phone) w).0.rows
      ≡ (transact_notifications
          (block_names env phone)
          (λ rows. ok (tt {0}, block_rows (block_names env phone) phone w.clock rows))
          w.rows).0
unfolding block_phone
run-block_phone env raw_phone phone w p q =
    let next = λ (number : String).
      transact env (block_names env number) (λ (at : Time) (rows : Rows).
        ok (tt {0}, block_rows (block_names env number) number at rows)) in
    ap (λ r. (run (with_number r next) w).0.rows) p
    ∙ ap (λ z. z.0.rows) (run-transact env (block_names env phone) _ w q)

block_phone-blocked :
    (env : Env) (raw_phone phone d : String) (w : World)
    → normalize_phone env.parse raw_phone ≡ ok phone
    → env.repository_error w ≡ none
    → has d (block_names env phone) ≡ true
    → is_blocked d (run (block_phone env raw_phone) w).0.rows ≡ true
block_phone-blocked env raw_phone phone d w p q named =
    let names = block_names env phone in
    ap (is_blocked d) (run-block_phone env raw_phone phone w p q)
    ∙ ap (λ (e : Entry). e.contact.blocked)
        (transact-get d names _ w.rows tt (block_rows names phone w.clock (read_rows names w.rows))
          named refl)
    ∙ block_rows-blocked d names phone w.clock (read_rows names w.rows) named

-- Nothing is allowed to a recipient who has opted out of all three.
unallowed :
    (policy : Policy) (recipient : Recipient) (purpose : Purpose) (phone : String) (t : Target)
    → recipient.telegram_opted_out ≡ true
    → recipient.whatsapp_opted_in ≡ false
    → policy.enabled sms ≡ false
    → IsAllowed policy recipient purpose phone t
    → ⊥
unallowed policy recipient purpose phone _ out not_in off (chat a b c d e) = cc
unallowed policy recipient purpose phone _ out not_in off (account a b c d e) = cc
unallowed policy recipient purpose phone _ out not_in off (template a b c d e) = cc
unallowed policy recipient purpose phone _ out not_in off (text a) = cc

none_allowed :
    (policy : Policy) (recipient : Recipient) (purpose : Purpose) (phone : String)
    (ts : List Target)
    → recipient.telegram_opted_out ≡ true
    → recipient.whatsapp_opted_in ≡ false
    → policy.enabled sms ≡ false
    → All (IsAllowed policy recipient purpose phone) ts
    → ts ≡ []
none_allowed policy recipient purpose phone [] out not_in off h = refl
none_allowed policy recipient purpose phone (t ∷ ts) out not_in off h =
    absurd (unallowed policy recipient purpose phone t out not_in off h.0)

blocked-plan :
    (env : Env) (c : Consents) (row : Entry) (latest : Snapshot) (purpose : Purpose)
    (phone : String) (at : Time) (ready : Bool) (ts : List Target)
    → c.telegram_row.contact.blocked ≡ true
    → c.whatsapp_row.contact.blocked ≡ true
    → c.staff_row.contact.blocked ≡ true
    → plan env.parse
        (policy_of env c row latest purpose phone at ready)
        (recipient_of env c row latest phone at)
        purpose
      ≡ ok ts
    → ts ≡ []
unfolding policy_of recipient_of sms_requested
blocked-plan env c row latest purpose phone at ready ts telegram_out whatsapp_out staff_out
      planned =
    let policy = policy_of env c row latest purpose phone at ready in
    let recipient = recipient_of env c row latest phone at in
    let (number, _, allowed) = plan-IsAllowed env.parse policy recipient purpose ts planned in
    none_allowed policy recipient purpose number ts telegram_out (ground (arith, whatsapp_out))
      (ground (arith, staff_out)) allowed

-- After `BlockPhone` for a number, what `Deliver` plans for that number on the rows as they then
-- are is no target at all: whatever the record, the booking, the purpose and the settings are, if
-- the plan is accepted, it is empty. The condition is that the number is valid and that the
-- repository does not fail in that call.
pub block_phone-plan :
    (env : Env) (w : World) (raw_phone phone : String) (row : Entry) (latest : Snapshot)
    (purpose : Purpose) (at : Time) (ready : Bool) (ts : List Target)
    → normalize_phone env.parse raw_phone ≡ ok phone
    → env.repository_error w ≡ none
    → plan env.parse
        (policy_of env
          (consents_in env (run (block_phone env raw_phone) w).0.rows phone)
          row
          latest
          purpose
          phone
          at
          ready)
        (recipient_of env
          (consents_in env (run (block_phone env raw_phone) w).0.rows phone)
          row
          latest
          phone
          at)
        purpose
      ≡ ok ts
    → ts ≡ []
block_phone-plan env w raw_phone phone row latest purpose at ready ts p q planned =
    let blocked = λ (d : String). block_phone-blocked env raw_phone phone d w p q in
    blocked-plan env (consents_in env (run (block_phone env raw_phone) w).0.rows phone) row latest
      purpose phone at ready ts
      (blocked (key env "telegram_phone" phone)
        (ground (arith, eq_refl (key env "telegram_phone" phone))))
      (blocked (key env "whatsapp_phone" phone)
        (ground (arith, eq_refl (key env "whatsapp_phone" phone))))
      (blocked (key env "booking_phone" phone)
        (ground (arith, eq_refl (key env "booking_phone" phone))))
      planned
