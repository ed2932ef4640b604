-- ===== src/Notifications/Once/Checks.antt =====
-- The transactions of the checks of internal/application/notifications (health.go, sms_receipts.go,
-- receipts.go, unrouted_recovery.go, web_reminder.go) keep the attempts of all delivery rows.
use omnichannel_booking_assi.Prelude.{String, Bool, not, ◌&&◌, ◌||◌, ◌==◌, ◌≡◌, refl, sym, ◌∙◌, eqb}
use omnichannel_booking_assi.Prelude.Dict.{insert}
use omnichannel_booking_assi.Prelude.Time.{Time, after, is_zero}
use omnichannel_booking_assi.Domain.Errors.{Result}
use omnichannel_booking_assi.Domain.Rules.{if_rule, result_rule}
use omnichannel_booking_assi.Memory.Notifications.{Rows, get_notification}
use omnichannel_booking_assi.Notifications.Entry.{Entry, Snapshot, ChannelHealth}
use omnichannel_booking_assi.Notifications.Service.{Env, key}
use omnichannel_booking_assi.Notifications.Attempts.{is_attempted}
use omnichannel_booking_assi.Notifications.Health as Health
use omnichannel_booking_assi.Notifications.Receipts as Receipts
use omnichannel_booking_assi.Notifications.Sms as Sms
use omnichannel_booking_assi.Notifications.Reconcile as Reconcile
use omnichannel_booking_assi.Memory.Notifications.Rows.{Keeps, insert-Keeps, insert-Keeps_ne}
use omnichannel_booking_assi.Notifications.Once.Tokens.{QuietChange}
use omnichannel_booking_assi.Notifications.Once.Changes.{Kept, Apart, fallback-Keeps}

module _ (env : Env) where
  pub claim_probe-Quiet :
      (name owner : String) (at : Time) → QuietChange env (Health.claim_probe name owner at)
  unfolding Health.claim_probe
  claim_probe-Quiet name owner at = λ x t rows.
      let row = get_notification name rows in
      if_rule (Kept (key env "delivery" x) rows)
        (row.operator_paused || after row.lease_until at || after row.next_lookup_at at) (λ _. refl)
        (λ _. insert-Keeps (key env "delivery" x) name (Health.probing row owner at) rows refl)

  pub store_probe-Quiet :
      (name owner : String) (at : Time) (answer : Result ChannelHealth)
      → QuietChange env (Health.store_probe name owner at answer)
  unfolding Health.store_probe
  store_probe-Quiet name owner at answer = λ x t rows.
      let d = key env "delivery" x in
      let row = get_notification name rows in
      let next = λ (_ : Unit {0}). insert-Keeps d name (Health.next_probe row at) rows refl in
      if_rule (Kept d rows) (not (row.lease_owner == owner)) (λ _. refl)
        (λ _.
          if_rule (Kept d rows) row.operator_paused
            (λ _. insert-Keeps d name (Health.unleased row) rows refl)
            (λ _.
              result_rule (Kept d rows) answer
                (λ health _.
                  if_rule (Kept d rows) health.known (λ _. insert-Keeps d name _ rows refl)
                    (λ _. next tt))
                (λ e _. next tt)))

  pub block_row-Quiet : (name : String) → QuietChange env (Health.block_row name)
  block_row-Quiet name = λ x at rows. insert-Keeps (key env "delivery" x) name _ rows refl

  pub claim_check-Quiet :
      (name owner : String) (alerts : Bool) (at : Time)
      → QuietChange env (Sms.claim_check name owner alerts at)
  unfolding Sms.claim_check
  claim_check-Quiet name owner alerts at = λ x t rows.
      let d = key env "delivery" x in
      let row = get_notification name rows in
      if_rule (Kept d rows)
        (not (Sms.awaiting_sms row) || after row.lease_until at || after row.next_lookup_at at)
        (λ _. refl)
        (λ _.
          if_rule (Kept d rows) (not (row.outcome == "sms_alert_retryable"))
            (λ _. insert-Keeps d name (Sms.checking row owner at) rows refl)
            (λ _.
              if_rule (Kept d rows) (not alerts)
                (λ _. insert-Keeps d name (Sms.freed (Sms.rotated row at)) rows refl)
                (λ _. insert-Keeps d name (Sms.alert_again row at) rows refl)))

  under_way-attempted :
      (row : Entry) (state : String) (at : Time)
      → (Sms.under_way row state at).attempted ≡ row.attempted
  under_way-attempted row state at =
      if_rule (λ (e : Entry). e.attempted ≡ row.attempted) (Sms.is_over row at) (λ _. refl)
        (λ _. refl)

  unread-attempted : (row : Entry) (at : Time) → (Sms.unread row at).attempted ≡ row.attempted
  unread-attempted row at =
      if_rule (λ (e : Entry). e.attempted ≡ row.attempted) (Sms.is_over row at) (λ _. refl)
        (λ _. refl)

  pub store_status-Quiet :
      (name owner : String) (alerts : Bool) (at : Time) (answer : Result String)
      → QuietChange env (Sms.store_status name owner alerts at answer)
  unfolding Sms.store_status
  store_status-Quiet name owner alerts at answer = λ x t rows.
      let d = key env "delivery" x in
      let row = get_notification name rows in
      if_rule (Kept d rows) (not (row.lease_owner == owner) || not (Sms.awaiting_sms row))
        (λ _. refl)
        (λ _.
          result_rule (Kept d rows) answer
            (λ state _.
              if_rule (Kept d rows) (Sms.is_under_way state)
                (λ _.
                  insert-Keeps d name (Sms.under_way row state at) rows
                    (under_way-attempted row state at))
                (λ _.
                  if_rule (Kept d rows) (not (Sms.is_failure state)) (λ _. tt)
                    (λ _.
                      if_rule (Kept d rows) (is_zero row.sms_failure_alerted_at && alerts)
                        (λ _. insert-Keeps d name (Sms.reserved_row row state at) rows refl)
                        (λ _. insert-Keeps d name (Sms.failed_row row state) rows refl))))
            (λ e _. insert-Keeps d name (Sms.unread row at) rows (unread-attempted row at)))

  pub reopen_alert-Quiet :
      (name : String) (reserved_at : Time) → QuietChange env (Sms.reopen_alert name reserved_at)
  unfolding Sms.reopen_alert
  reopen_alert-Quiet name reserved_at = λ x at rows.
      let row = get_notification name rows in
      if_rule (Kept (key env "delivery" x) rows)
        (not (eqb row.sms_failure_alerted_at reserved_at)
          || not (row.outcome == "failed_sms") && not (row.outcome == "cancelled_sms"))
        (λ _. refl) (λ _. insert-Keeps (key env "delivery" x) name (Sms.retryable row) rows refl)

  pub reopen_unrouted-Quiet : (name : String) → QuietChange env (Reconcile.reopen_unrouted name)
  unfolding Reconcile.reopen_unrouted
  reopen_unrouted-Quiet name = λ x at rows.
      let row = get_notification name rows in
      if_rule (Kept (key env "delivery" x) rows)
        (Reconcile.is_unrouted row && not (after row.lease_until at))
        (λ _. insert-Keeps (key env "delivery" x) name (Reconcile.reopened row) rows refl)
        (λ _. refl)

  pub add_reminder-Quiet :
      (name id record_id : String) (snap : Snapshot)
      → Apart env name
      → QuietChange env (Reconcile.add_reminder env name id record_id snap)
  unfolding Reconcile.add_reminder
  add_reminder-Quiet name id record_id snap apart = λ x at rows.
      if_rule (Kept (key env "delivery" x) rows) ((get_notification name rows).kind == "")
        (λ _. insert-Keeps_ne (key env "delivery" x) name _ rows (apart x)) (λ _. refl)

  accepted_event-attempted :
      (event : Entry) (at : Time) → (Receipts.accepted_event event at).attempted ≡ event.attempted
  accepted_event-attempted event at =
      if_rule (λ (e : Entry). e.attempted ≡ event.attempted) (event.state == "prepared") (λ _. refl)
        (λ _. refl)

  after_receipt-Keeps :
      (d name delivery_name state : String) (at : Time) (rows : Rows)
      → Keeps d rows (Receipts.after_receipt name delivery_name state at rows)
  unfolding Receipts.after_receipt
  after_receipt-Keeps d name delivery_name state at rows =
      let event = get_notification name rows in
      let row = get_notification delivery_name rows in
      let marked = insert delivery_name (Receipts.accepted row) rows in
      if_rule (Keeps d rows) (state == "failed") (λ _. fallback-Keeps d name delivery_name at rows)
        (λ _.
          if_rule (Keeps d rows) (Receipts.is_superseded row state)
            (λ _.
              insert-Keeps d name (Receipts.accepted_event event at) marked (
                accepted_event-attempted event at
                ∙ sym (insert-Keeps name delivery_name (Receipts.accepted row) rows refl))
              ∙ insert-Keeps d delivery_name (Receipts.accepted row) rows refl)
            (λ _. refl))

  pub record_receipt-Quiet :
      (name delivery_name state : String)
      → QuietChange env (Receipts.record_receipt name delivery_name state)
  unfolding Receipts.record_receipt
  record_receipt-Quiet name delivery_name state = λ x at rows.
      let d = key env "delivery" x in
      let row = get_notification delivery_name rows in
      let marked = insert delivery_name (Receipts.with_receipt row state at) rows in
      if_rule (Kept d rows)
        (not (is_attempted "whatsapp" row.attempted) || Receipts.is_outdated row state) (λ _. refl)
        (λ _.
          after_receipt-Keeps d name delivery_name state at marked
          ∙ insert-Keeps d delivery_name (Receipts.with_receipt row state at) rows refl)
