-- ===== src/Notifications/Once/Deliver.antt =====
-- All steps of `Deliver` (internal/application/notifications/service.go) are allowed, before and after its
-- loop too.
use omnichannel_booking_assi.Prelude.{
  String, not, Option, none, some, List, [], ◌∷◌, ◌==◌, refl, is_empty,
}
use omnichannel_booking_assi.Domain.Errors.{Error, Result, ok, err}
use omnichannel_booking_assi.Domain.Rules.{if_rule, option_rule}
use omnichannel_booking_assi.Domain.Phone.{normalize_phone}
use omnichannel_booking_assi.Notifications.Entry.{Entry, Snapshot}
use omnichannel_booking_assi.Notifications.Routing.{Target}
use omnichannel_booking_assi.Notifications.Process.{Call}
use omnichannel_booking_assi.Notifications.Service.{Env, key, fingerprint, is_missing_booking}
use omnichannel_booking_assi.Notifications.Prepare.{is_open}
use omnichannel_booking_assi.Notifications.Recipients.{needs_repair}
use omnichannel_booking_assi.Notifications.Attempts.{Job, delivery_id}
use omnichannel_booking_assi.Notifications.Deliver as Deliver
use omnichannel_booking_assi.Notifications.Once.Kinds.{key-ne}
use omnichannel_booking_assi.Notifications.Once.Tokens.{
  Quiet, transact-Quiet, bind-Quiet, then-Quiet, done-Quiet, look-Quiet, attempt-Quiet, now-Quiet,
  fresh_id-Quiet,
}
use omnichannel_booking_assi.Notifications.Once.Changes as Changes
use omnichannel_booking_assi.Notifications.Once.Calls.{get-Quiet, finish-Quiet, guard_allows-Quiet}
use omnichannel_booking_assi.Notifications.Once.Delivery.{
  Safe, Quiet-Safe, then-Safe, bind-Safe, done-Safe, try_targets-Safe,
}

module _ (env : Env) where
  read_consents-Quiet : (phone : String) → Quiet env (Deliver.read_consents env phone)
  read_consents-Quiet phone =
      bind-Quiet env _ _ (get-Quiet env (key env "telegram_phone" phone)) (λ _.
        bind-Quiet env _ _ (get-Quiet env (key env "whatsapp_phone" phone)) (λ _.
          bind-Quiet env _ _ (get-Quiet env "policy") (λ _.
            bind-Quiet env _ _ (get-Quiet env (key env "booking_phone" phone)) (λ _.
              bind-Quiet env _ _ (get-Quiet env (key env "language_phone" phone)) (λ _.
                bind-Quiet env _ _ (get-Quiet env (key env "web_phone" phone))
                  (λ _. done-Quiet env _))))))

  repair-Quiet :
      (name : String) (latest : Snapshot) (phone : String) (row : Entry)
      → Quiet env (Deliver.repair env name latest phone row)
  repair-Quiet name latest phone row =
      if_rule (Quiet env) (needs_repair env row latest phone)
        (λ _. transact-Quiet env _ _ (Changes.repair_record-Quiet env name latest phone))
        (λ _. done-Quiet env _)

  whatsapp_ready-Quiet :
      (template language : String) → Quiet env (Deliver.whatsapp_ready env template language)
  whatsapp_ready-Quiet template language =
      if_rule (Quiet env) (is_empty template) (λ _. done-Quiet env _)
        (λ _.
          option_rule (Quiet env) env.health (λ _. done-Quiet env _)
            (λ guard _. guard_allows-Quiet env guard template language))

  finish_lease-Safe :
      (lease : Deliver.Lease) (outcome : String) → Safe env (Deliver.finish_lease env lease outcome)
  finish_lease-Safe lease outcome =
      Quiet-Safe env _ (finish-Quiet env lease.name lease.owner outcome none)

  send_to-Safe :
      (lease : Deliver.Lease) (job : Job) (planned : Result (List Target))
      → Safe env (Deliver.send_to env lease job planned)
  send_to-Safe lease job (err e) = done-Safe env _
  send_to-Safe lease job (ok []) = finish_lease-Safe lease "no_linked_messenger"
  send_to-Safe lease job (ok (target ∷ targets)) = try_targets-Safe env job (target ∷ targets)

  notify-Safe :
      (lease : Deliver.Lease) (row : Entry) (latest : Snapshot) (phone : String)
      → Safe env (Deliver.notify env lease row latest phone)
  unfolding Deliver.notify
  notify-Safe lease row latest phone =
      let record_name = key env "record" row.event.record_id in
      bind-Safe env _ _ (read_consents-Quiet phone) (λ c.
        bind-Safe env _ _ (get-Quiet env record_name) (λ found.
          bind-Safe env _ _ (repair-Quiet record_name latest phone found) (λ permission.
            bind-Safe env _ _ (whatsapp_ready-Quiet _ _)
              (λ ready. send_to-Safe lease (Deliver.job_of env lease row c phone) _))))

  notify_number-Safe :
      (lease : Deliver.Lease) (row : Entry) (latest : Snapshot) (number : Result String)
      → Safe env (Deliver.notify_number env lease row latest number)
  notify_number-Safe lease row latest (ok phone) = notify-Safe lease row latest phone
  notify_number-Safe lease row latest (err e) = finish_lease-Safe lease "no_valid_phone"

  notify_latest-Safe :
      (lease : Deliver.Lease) (row : Entry) (latest : Snapshot)
      → Safe env (Deliver.notify_latest env lease row latest)
  unfolding Deliver.notify_latest
  notify_latest-Safe lease row latest = bind-Safe env _ _ (now-Quiet env) (λ started_at.
      bind-Safe env _ _ (now-Quiet env) (λ late_at.
        if_rule (Safe env) (not (fingerprint env latest == row.notice.fingerprint))
          (λ _. finish_lease-Safe lease "superseded")
          (λ _.
            if_rule (Safe env) (Deliver.has_started latest started_at)
              (λ _. finish_lease-Safe lease "appointment_started")
              (λ _.
                if_rule (Safe env) (Deliver.is_late_reminder row latest late_at)
                  (λ _. finish_lease-Safe lease "reminder_expired")
                  (λ _.
                    notify_number-Safe lease row latest
                      (normalize_phone env.parse latest.phone))))))

  on_read-Safe :
      (lease : Deliver.Lease) (next : Snapshot → Call (Unit {0})) (answer : Result Snapshot)
      → ((snap : Snapshot) → Safe env (next snap))
      → Safe env (Deliver.on_read env lease next answer)
  on_read-Safe lease next (ok snap) h = h snap
  on_read-Safe lease next (err e) h =
      if_rule (Safe env) (is_missing_booking e) (λ _. finish_lease-Safe lease "record_unavailable")
        (λ _. done-Safe env _)

  read_booking-Quiet : (record_id : String) → Quiet env (Deliver.read_booking env record_id)
  read_booking-Quiet record_id = look-Quiet env _ (λ w. done-Quiet env (env.reader w record_id))

  deliver_prepared-Safe :
      (lease : Deliver.Lease) (row : Entry) → Safe env (Deliver.deliver_prepared env lease row)
  unfolding Deliver.deliver_prepared
  deliver_prepared-Safe lease row =
      bind-Safe env _ _ (attempt-Quiet env _ (read_booking-Quiet row.event.record_id))
        (λ answer. on_read-Safe lease _ answer (notify_latest-Safe lease row))

  owned_answer-Quiet : (o : Option Error) → Quiet env (Deliver.owned_answer o)
  owned_answer-Quiet none = done-Quiet env _
  owned_answer-Quiet (some e) =
      if_rule (Quiet env) (is_missing_booking e) (λ _. done-Quiet env _) (λ _. done-Quiet env _)

  deliver_news-Safe :
      (lease : Deliver.Lease) (row : Entry) (snap : Snapshot)
      → Changes.Apart env lease.name
      → Safe env (Deliver.deliver_news env lease row snap)
  unfolding Deliver.deliver_news
  deliver_news-Safe lease row snap apart =
      bind-Safe env _ _
        (look-Quiet env _ (λ w. owned_answer-Quiet (env.owned w row.event.record_id)))
        (λ owned. bind-Safe env _ _ (fresh_id-Quiet env) (λ new_id.
          bind-Safe env _ _
            (transact-Quiet env _ _ (
              Changes.prepare_event-Quiet env lease.name (key env "record" row.event.record_id)
                lease.owner row.event snap _ lease.at new_id apart
                (λ x. key-ne env "record" "delivery" row.event.record_id x refl)))
            (λ ready.
              if_rule (Safe env) (ready.state == "done") (λ _. done-Safe env _)
                (λ _. deliver_prepared-Safe lease ready))))

  deliver_pending-Safe :
      (lease : Deliver.Lease) (row : Entry)
      → Changes.Apart env lease.name
      → Safe env (Deliver.deliver_pending env lease row)
  unfolding Deliver.deliver_pending
  deliver_pending-Safe lease row apart =
      bind-Safe env _ _ (attempt-Quiet env _ (read_booking-Quiet row.event.record_id))
        (λ answer. on_read-Safe lease _ answer (λ snap. deliver_news-Safe lease row snap apart))

  deliver_leased-Safe :
      (lease : Deliver.Lease) (row : Entry)
      → Changes.Apart env lease.name
      → Safe env (Deliver.deliver_leased env lease row)
  deliver_leased-Safe lease row apart =
      if_rule (Safe env) (row.state == "pending") (λ _. deliver_pending-Safe lease row apart)
        (λ _. deliver_prepared-Safe lease row)

  and_release-Safe :
      (lease : Deliver.Lease) (body : Call (Unit {0}))
      → Safe env body
      → Safe env (Deliver.and_release env lease body)
  and_release-Safe lease body h = then-Safe env _ _ h (λ r. Quiet-Safe env _ (
      then-Quiet env _ _
        (transact-Quiet env _ _ (Changes.release_event-Quiet env lease.name lease.owner))
        (λ _. done-Quiet env _)))

  resume-Quiet : (id : String) → Quiet env (Deliver.resume_failed_whatsapp env id)
  unfolding Deliver.resume_failed_whatsapp
  resume-Quiet id = bind-Quiet env _ _ (get-Quiet env (key env "event" id)) (λ event.
      if_rule (Quiet env) (not (event.kind == "event")) (λ _. done-Quiet env _)
        (λ _. transact-Quiet env _ _ (
          Changes.resume_change-Quiet env (key env "event" id)
            (key env "delivery" (delivery_id event.event.record_id id)))))

  pub deliver-Safe : (id : String) → Safe env (Deliver.deliver env id)
  unfolding Deliver.deliver
  deliver-Safe id = bind-Safe env _ _ (resume-Quiet id) (λ _.
      bind-Safe env _ _ (fresh_id-Quiet env) (λ owner. bind-Safe env _ _ (now-Quiet env) (λ at.
        bind-Safe env _ _
          (transact-Quiet env _ _ (Changes.lease_event-Quiet env (key env "event" id) owner at))
          (λ row.
            if_rule (Safe env) (not (is_open row)) (λ _. done-Safe env _)
              (λ _. and_release-Safe (Deliver.lease_of env id owner at) _ (
                deliver_leased-Safe (Deliver.lease_of env id owner at) row
                  (λ x. key-ne env "event" "delivery" id x refl)))))))
