-- ===== src/Notifications/Receipts/Final.antt =====
-- internal/application/notifications/receipts.go: a message that has arrived is not taken for lost again.
use omnichannel_booking_assi.Prelude.{
  ◌≡◌, refl, sym, ap, ◌∙◌, ◌⊎◌, inl, inr, String, Bool, true, false, not, ◌||◌, ◌==◌, List, [], ◌∷◌,
  arith, eq_iff, if◌then◌else◌, Bool-cases,
}
use omnichannel_booking_assi.Prelude.Dict.{insert}
use omnichannel_booking_assi.Prelude.Time.{Time}
use omnichannel_booking_assi.Domain.Errors.{Result, ok, err}
use omnichannel_booking_assi.Domain.Rules.{if_rule}
use omnichannel_booking_assi.Memory.Notifications.{Rows, get_notification}
use omnichannel_booking_assi.Memory.Notifications.Rows.{get-insert}
use omnichannel_booking_assi.Notifications.Entry.{Entry}
use omnichannel_booking_assi.Notifications.Service.{
  prepare_whatsapp_fallback, needs_fallback, reopened_event, rejected_delivery,
}
use omnichannel_booking_assi.Notifications.Attempts.{is_attempted}
use omnichannel_booking_assi.Notifications.Receipts.{
  record_receipt, is_outdated, after_receipt, arrived, with_receipt, is_superseded, accepted,
  accepted_event,
}

abbrev pub state_of : String → Rows → String
state_of name rows = (get_notification name rows).provider_state

-- A call whose transaction fails leaves the rows as they are.
abbrev pub rows_after : Rows → Result (Bool × Rows) → Rows
rows_after rows (ok (failed, rows')) = rows'
rows_after rows (err e) = rows

-- The receipts that come in, with the times at which they do.
unfoldable pub apply_receipts : String → String → List (String × Time) → Rows → Rows
apply_receipts name delivery_name [] rows = rows
apply_receipts name delivery_name ((state, at) ∷ receipts) rows =
    apply_receipts name delivery_name receipts
      (rows_after rows (record_receipt name delivery_name state at rows))

-- A row is written that has the provider's state of the row before.
insert-state :
    (d name : String) (e : Entry) (rows : Rows)
    → e.provider_state ≡ state_of name rows
    → state_of d (insert name e rows) ≡ state_of d rows
insert-state d name e rows h = elim (Bool-cases (name == d)) [
  | inl p ↦
      ap (λ (x : Entry). x.provider_state)
        (get-insert name d e rows ∙ ap (λ b. if b then e else get_notification d rows) p)
      ∙ h
      ∙ ap (λ n. state_of n rows) ((eq_iff name d).0 p)
  | inr p ↦
      ap (λ (x : Entry). x.provider_state)
        (get-insert name d e rows ∙ ap (λ b. if b then e else get_notification d rows) p)
]

fallback-state :
    (d name delivery_name : String) (at : Time) (rows : Rows)
    → state_of d (prepare_whatsapp_fallback name delivery_name at rows) ≡ state_of d rows
unfolding prepare_whatsapp_fallback
fallback-state d name delivery_name at rows =
    let event = get_notification name rows in
    let delivery = get_notification delivery_name rows in
    let marked = insert name (reopened_event event at) rows in
    if_rule (λ r. state_of d r ≡ state_of d rows) (needs_fallback event delivery)
      (λ _.
        insert-state d delivery_name (rejected_delivery delivery at) marked
          (sym (insert-state delivery_name name (reopened_event event at) rows refl))
        ∙ insert-state d name (reopened_event event at) rows refl)
      (λ _. refl)

accepted_event-state :
    (event : Entry) (at : Time) → (accepted_event event at).provider_state ≡ event.provider_state
accepted_event-state event at =
    if_rule (λ (e : Entry). e.provider_state ≡ event.provider_state) (event.state == "prepared")
      (λ _. refl) (λ _. refl)

after_receipt-state :
    (d name delivery_name state : String) (at : Time) (rows : Rows)
    → state_of d (after_receipt name delivery_name state at rows) ≡ state_of d rows
unfolding after_receipt
after_receipt-state d name delivery_name state at rows =
    let P = λ (r : Rows). state_of d r ≡ state_of d rows in
    let event = get_notification name rows in
    let row = get_notification delivery_name rows in
    let marked = insert delivery_name (accepted row) rows in
    if_rule P (state == "failed") (λ _. fallback-state d name delivery_name at rows)
      (λ _.
        if_rule P (is_superseded row state)
          (λ _.
            insert-state d name (accepted_event event at) marked (
              accepted_event-state event at
              ∙ sym (insert-state name delivery_name (accepted row) rows refl))
            ∙ insert-state d delivery_name (accepted row) rows refl)
          (λ _. refl))

-- The state that a receipt leaves.
abbrev StepTo : String → String → Rows → Result (Bool × Rows) → Type 0
StepTo d state rows (err e) = Unit
StepTo d state rows (ok (failed, rows')) =
    (failed ≡ false) × (state_of d rows' ≡ state_of d rows)
    ⊎ (is_outdated (get_notification d rows) state ≡ false) × (state_of d rows' ≡ state)

record_receipt-StepTo :
    (name delivery_name state : String) (at : Time) (rows : Rows)
    → StepTo delivery_name state rows (record_receipt name delivery_name state at rows)
unfolding record_receipt
record_receipt-StepTo name delivery_name state at rows =
    let row = get_notification delivery_name rows in
    let marked = insert delivery_name (with_receipt row state at) rows in
    if_rule (StepTo delivery_name state rows)
      (not (is_attempted "whatsapp" row.attempted) || is_outdated row state) (λ _. inl (refl, refl))
      (λ h. inr (
        ground (arith, h),
        after_receipt-state delivery_name name delivery_name state at marked
            ∙ ap (λ (e : Entry). e.provider_state)
                (omnichannel_booking_assi.Memory.Notifications.Rows.get-insert_self delivery_name
                  (with_receipt row state at) rows),
      ))

-- What replaces an arrived state has arrived.
arrived_next :
    (row : Entry) (state : String)
    → arrived row.provider_state ≡ true
    → is_outdated row state ≡ false
    → arrived state ≡ true
unfolding is_outdated
arrived_next row state h k = ground (arith, h, k)

StepTo-arrived :
    (d state : String) (rows : Rows) (r : Result (Bool × Rows))
    → arrived (state_of d rows) ≡ true
    → StepTo d state rows r
    → arrived (state_of d (rows_after rows r)) ≡ true
StepTo-arrived d state rows (err e) h k = h
StepTo-arrived d state rows (ok (failed, rows')) h (inl (_, same)) = ap arrived same ∙ h
StepTo-arrived d state rows (ok (failed, rows')) h (inr (newer, now)) =
    ap arrived now ∙ arrived_next (get_notification d rows) state h newer

-- Once WhatsApp has told that a message was delivered or read, it counts as delivered or read after
-- any receipts that follow, in any order and at any times: a late or repeated failure does not undo
-- it.
pub apply_receipts-arrived :
    (name delivery_name : String) (receipts : List (String × Time)) (rows : Rows)
    → arrived (state_of delivery_name rows) ≡ true
    → arrived (state_of delivery_name (apply_receipts name delivery_name receipts rows)) ≡ true
unfolding apply_receipts
apply_receipts-arrived name delivery_name [] rows h = h
apply_receipts-arrived name delivery_name ((state, at) ∷ receipts) rows h =
    apply_receipts-arrived name delivery_name receipts
      (rows_after rows (record_receipt name delivery_name state at rows))
      (StepTo-arrived delivery_name state rows (record_receipt name delivery_name state at rows) h
        (record_receipt-StepTo name delivery_name state at rows))
