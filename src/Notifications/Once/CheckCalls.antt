-- ===== src/Notifications/Once/CheckCalls.antt =====
-- The receipts, the checks of SMS and the recovery (internal/application/notifications) do only quiet
-- steps.
use omnichannel_booking_assi.Prelude.{
  ℕ, String, Bool, not, ◌&&◌, ◌||◌, Option, none, some, List, [], ◌∷◌, ◌==◌, refl,
}
use omnichannel_booking_assi.Prelude.Time.{Time}
use omnichannel_booking_assi.Domain.Errors.{Error, Result, ok, err}
use omnichannel_booking_assi.Domain.Rules.{if_rule, result_rule, option_rule}
use omnichannel_booking_assi.Domain.Phone.{normalize_phone}
use omnichannel_booking_assi.Notifications.Entry.{Entry, Notice}
use omnichannel_booking_assi.Notifications.Attempts.{delivery_id}
use omnichannel_booking_assi.Notifications.Process.{World}
use omnichannel_booking_assi.Notifications.Service.{Env, key}
use omnichannel_booking_assi.Notifications.Receipts as Receipts
use omnichannel_booking_assi.Notifications.Sms as Sms
use omnichannel_booking_assi.Notifications.Reconcile as Reconcile
use omnichannel_booking_assi.Notifications.Once.Kinds.{key-ne}
use omnichannel_booking_assi.Notifications.Once.Tokens.{
  Quiet, then-Quiet, bind-Quiet, transact-Quiet, query-Quiet, now-Quiet, fresh_id-Quiet, step-Quiet,
  done-Quiet, look-Quiet, attempt-Quiet,
}
use omnichannel_booking_assi.Notifications.Once.Checks as Checks
use omnichannel_booking_assi.Notifications.Once.Calls.{get-Quiet, schedule-Quiet, refresh-Quiet}
use omnichannel_booking_assi.Memory.Notifications.{pending_notifications, pending_sms_notifications}

module _ (env : Env) where
  receipt_for-Quiet :
      (id phone state : String) → Quiet env (Receipts.receipt_for env id phone state)
  unfolding Receipts.receipt_for
  receipt_for-Quiet id phone state =
      bind-Quiet env _ _ (get-Quiet env (key env "event" id)) (λ event.
        if_rule (Quiet env)
          (not (event.kind == "event" && event.notice.id == id)
            || not (Receipts.same_number env event phone))
          (λ _. done-Quiet env _)
          (λ _.
            bind-Quiet env _ _
              (transact-Quiet env _ _ (
                Checks.record_receipt-Quiet env (key env "event" id)
                  (key env "delivery" (delivery_id event.event.record_id id)) state))
              (λ failed.
                if_rule (Quiet env) failed (λ _. schedule-Quiet env id "whatsapp-failed")
                  (λ _. done-Quiet env _))))

  pub whatsapp_status-Quiet :
      (reference raw_phone state : String)
      → Quiet env (Receipts.whatsapp_status env reference raw_phone state)
  unfolding Receipts.whatsapp_status
  whatsapp_status-Quiet reference raw_phone state =
      option_rule (Quiet env) (Receipts.cut_prefix reference "native-booking:")
        (λ _. done-Quiet env _)
        (λ id _.
          if_rule (Quiet env) (not (env.valid_id id)) (λ _. done-Quiet env _)
            (λ _.
              result_rule (Quiet env) (normalize_phone env.parse raw_phone)
                (λ phone _.
                  if_rule (Quiet env) (not (Receipts.is_receipt state)) (λ _. done-Quiet env _)
                    (λ _. receipt_for-Quiet id phone state))
                (λ e _. done-Quiet env _)))

  on_alert-Quiet :
      (name : String) (reserved_at : Time) (answer : Bool × Option Error)
      → Quiet env (Sms.on_alert env name reserved_at answer)
  on_alert-Quiet name reserved_at (rejected, none) = done-Quiet env _
  on_alert-Quiet name reserved_at (rejected, some e) =
      if_rule (Quiet env) rejected
        (λ _.
          then-Quiet env _ _
            (transact-Quiet env _ _ (Checks.reopen_alert-Quiet env name reserved_at))
            (λ _. done-Quiet env _))
        (λ _. done-Quiet env _)

  send_sms_failure_alert-Quiet :
      (alert : World → String → String → Bool × Option Error) (name record_id id : String)
      (at : Time)
      → Quiet env (Sms.send_sms_failure_alert env alert name record_id id at)
  unfolding Sms.send_sms_failure_alert
  send_sms_failure_alert-Quiet alert name record_id id at =
      step-Quiet env _ _ (λ w. (((λ x. refl), refl), on_alert-Quiet name at (alert w record_id id)))

  alert_if_any-Quiet :
      (name record_id id : String) (at : Time)
      → Quiet env (Sms.alert_if_any env name record_id id at)
  alert_if_any-Quiet name record_id id at =
      option_rule (Quiet env) env.sms_failure_alert (λ _. done-Quiet env _)
        (λ alert _. send_sms_failure_alert-Quiet alert name record_id id at)

  alert_due-Quiet :
      (name id : String) (at : Time) (due : Option String)
      → Quiet env (Sms.alert_due env name id at due)
  alert_due-Quiet name id at none = done-Quiet env _
  alert_due-Quiet name id at (some record_id) = alert_if_any-Quiet name record_id id at

  error_of-Quiet : {A : Type 0} (r : Result A) → Quiet env (Sms.error_of r)
  error_of-Quiet (ok a) = done-Quiet env _
  error_of-Quiet (err e) = done-Quiet env _

  look_up-Quiet :
      (status : World → Notice → Result String) (name owner id : String) (at : Time)
      (notice : Notice)
      → Quiet env (Sms.look_up env status name owner id at notice)
  unfolding Sms.look_up
  look_up-Quiet status name owner id at notice =
      bind-Quiet env _ _
        (attempt-Quiet env _ (look-Quiet env _ (λ w. done-Quiet env (status w notice))))
        (λ answer.
          bind-Quiet env _ _
            (transact-Quiet env _ _
              (Checks.store_status-Quiet env name owner (Sms.has_alert env) at answer))
            (λ due.
              bind-Quiet env _ _ (alert_due-Quiet name id at due) (λ _. error_of-Quiet answer)))

  on_check-Quiet :
      (status : World → Notice → Result String) (name owner id : String) (at : Time)
      (check : Sms.Check)
      → Quiet env (Sms.on_check env status name owner id at check)
  on_check-Quiet status name owner id at Sms.unclaimed = done-Quiet env _
  on_check-Quiet status name owner id at (Sms.alert_only record_id) =
      alert_if_any-Quiet name record_id id at
  on_check-Quiet status name owner id at (Sms.lookup_status notice) =
      look_up-Quiet status name owner id at notice

  check_sms-Quiet :
      (status : World → Notice → Result String) (id : String)
      → Quiet env (Sms.check_sms env status id)
  unfolding Sms.check_sms
  check_sms-Quiet status id = bind-Quiet env _ _ (fresh_id-Quiet env) (λ owner.
      bind-Quiet env _ _ (now-Quiet env) (λ at.
        bind-Quiet env _ _
          (transact-Quiet env _ _
            (Checks.claim_check-Quiet env (key env "event" id) owner (Sms.has_alert env) at))
          (λ check. on_check-Quiet status (key env "event" id) owner id at check)))

  check_each-Quiet :
      (status : World → Notice → Result String) (rows : List Entry) (result : Result (Unit {0}))
      → Quiet env (Sms.check_each env status rows result)
  unfolding Sms.check_each
  check_each-Quiet status [] result = done-Quiet env _
  check_each-Quiet status (row ∷ rows) result =
      then-Quiet env _ _ (check_sms-Quiet status row.event.id)
        (λ r. check_each-Quiet status rows (Sms.join result r))

  reconcile_sms-Quiet : Quiet env (Sms.reconcile_sms env)
  unfolding Sms.reconcile_sms
  reconcile_sms-Quiet =
      option_rule (Quiet env) env.sms_status (λ _. done-Quiet env _)
        (λ status _.
          bind-Quiet env _ _ (query-Quiet env pending_sms_notifications)
            (λ rows. check_each-Quiet status rows (ok tt)))

  recover_unrouted-Quiet : (row : Entry) → Quiet env (Reconcile.recover_unrouted env row)
  unfolding Reconcile.recover_unrouted
  recover_unrouted-Quiet row =
      bind-Quiet env _ _
        (transact-Quiet env _ _ (Checks.reopen_unrouted-Quiet env (key env "event" row.event.id)))
        (λ ready. bind-Quiet env _ _ (now-Quiet env) (λ at.
          if_rule (Quiet env) ready (λ _. schedule-Quiet env row.event.id _)
            (λ _. done-Quiet env _)))

  recover_each-Quiet :
      (rows : List Entry) (result : Result (Unit {0}))
      → Quiet env (Reconcile.recover_each env rows result)
  unfolding Reconcile.recover_each
  recover_each-Quiet [] result = done-Quiet env _
  recover_each-Quiet (row ∷ rows) result = bind-Quiet env _ _ (now-Quiet env) (λ at.
      if_rule (Quiet env)
        (not (row.kind == "event")
          || not (Reconcile.is_unrouted row)
          || not (Reconcile.is_recent row at))
        (λ _. recover_each-Quiet rows result)
        (λ _.
          then-Quiet env _ _ (recover_unrouted-Quiet row)
            (λ r. recover_each-Quiet rows (Sms.join result r))))

  reconcile_unrouted-Quiet :
      (unrouted : Option (World → Result (List Entry)))
      → Quiet env (Reconcile.reconcile_unrouted env unrouted)
  unfolding Reconcile.reconcile_unrouted
  reconcile_unrouted-Quiet none = done-Quiet env _
  reconcile_unrouted-Quiet (some unrouted) =
      bind-Quiet env _ _ (look-Quiet env _ (λ w. done-Quiet env (unrouted w)))
        (λ rows. recover_each-Quiet rows (ok tt))

  reschedule_each-Quiet :
      (rows : List Entry) (result : Result (Unit {0}))
      → Quiet env (Reconcile.reschedule_each env rows result)
  unfolding Reconcile.reschedule_each
  reschedule_each-Quiet [] result = done-Quiet env _
  reschedule_each-Quiet (row ∷ rows) result = bind-Quiet env _ _ (now-Quiet env) (λ at.
      if_rule (Quiet env) (not (Reconcile.needs_task row at))
        (λ _. reschedule_each-Quiet rows result)
        (λ _.
          then-Quiet env _ _ (schedule-Quiet env row.event.id _)
            (λ r. reschedule_each-Quiet rows (Sms.join result r))))

  refresh_if_any-Quiet : Quiet env (Reconcile.refresh_if_any env)
  refresh_if_any-Quiet =
      option_rule (Quiet env) env.health (λ _. done-Quiet env _)
        (λ guard _. refresh-Quiet env guard)

  pub reconcile-Quiet :
      (unrouted : Option (World → Result (List Entry)))
      → Quiet env (Reconcile.reconcile env unrouted)
  unfolding Reconcile.reconcile
  reconcile-Quiet unrouted = then-Quiet env _ _ (reconcile_unrouted-Quiet unrouted) (λ first.
      bind-Quiet env _ _ (query-Quiet env pending_notifications) (λ entries.
        then-Quiet env _ _ (reschedule_each-Quiet entries first) (λ _.
          then-Quiet env _ _ reconcile_sms-Quiet
            (λ _. then-Quiet env _ _ refresh_if_any-Quiet (λ _. done-Quiet env _)))))

  pub queue_web_reminder-Quiet :
      (record_id phone proof : String) (minutes : ℕ)
      → Quiet env (Reconcile.queue_web_reminder env record_id phone proof minutes)
  unfolding Reconcile.queue_web_reminder
  queue_web_reminder-Quiet record_id phone proof minutes =
      if_rule (Quiet env) (not (Reconcile.is_choice minutes)) (λ _. done-Quiet env _)
        (λ _. bind-Quiet env _ _ (get-Quiet env (key env "record" record_id)) (λ row.
          if_rule (Quiet env) (not (Reconcile.is_proven row phone proof)) (λ _. done-Quiet env _)
            (λ _.
              bind-Quiet env _ _ (look-Quiet env _ (λ w. done-Quiet env (env.reader w record_id)))
                (λ snap. bind-Quiet env _ _ (now-Quiet env) (λ at.
                  if_rule (Quiet env) (Reconcile.is_due snap phone minutes at)
                    (λ _.
                      bind-Quiet env _ _
                        (transact-Quiet env _ _ (
                          Checks.add_reminder-Quiet env
                            (key env "event" (Reconcile.web_reminder_id env record_id snap minutes))
                            (Reconcile.web_reminder_id env record_id snap minutes) record_id snap
                            (λ x. key-ne env "event" "delivery" _ x refl)))
                        (λ _. schedule-Quiet env _ "initial"))
                    (λ _. done-Quiet env _))))))
