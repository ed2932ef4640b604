-- ===== src/Notifications/Once/Calls.antt =====
-- The calls of internal/application/notifications that send no notification do only quiet steps.
use omnichannel_booking_assi.Prelude.{String, Bool, true, false, Option, none, some, refl}
use omnichannel_booking_assi.Prelude.Time.{Time, after}
use omnichannel_booking_assi.Domain.Errors.{Error}
use omnichannel_booking_assi.Domain.Rules.{if_rule, option_rule}
use omnichannel_booking_assi.Memory.Notifications.{get_notification}
use omnichannel_booking_assi.Notifications.Entry.{Event, ChannelHealth}
use omnichannel_booking_assi.Notifications.Process.{World, Task}
use omnichannel_booking_assi.Notifications.Service.{
  Env, HealthGuard, key, get, now, task_of, schedule, with_task, task_answer, ingest, finish,
}
use omnichannel_booking_assi.Notifications.Health as Health
use omnichannel_booking_assi.Notifications.Once.Kinds.{key-ne}
use omnichannel_booking_assi.Notifications.Once.Tokens.{
  Quiet, Same, bind-Quiet, transact-Quiet, query-Quiet, now-Quiet, fresh_id-Quiet, step-Quiet,
  done-Quiet, look-Quiet, attempt-Quiet,
}
use omnichannel_booking_assi.Notifications.Once.Changes.{Apart, add_event-Quiet, finish_event-Quiet}
use omnichannel_booking_assi.Notifications.Once.Checks as Checks

module _ (env : Env) where
  event-Apart : (id : String) → Apart env (key env "event" id)
  event-Apart id = λ x. key-ne env "event" "delivery" id x refl

  with_task-Quiet :
      (o : Option Error) (task : Task) (w : World)
      → Same env w (with_task o task w) × Quiet env (task_answer o)
  with_task-Quiet none task w = (((λ x. refl), refl), done-Quiet env _)
  with_task-Quiet (some e) task w = (((λ x. refl), refl), done-Quiet env _)

  pub schedule-Quiet : (id attempt : String) → Quiet env (schedule env id attempt)
  unfolding schedule
  schedule-Quiet id attempt = bind-Quiet env now _ (now-Quiet env) (λ at. step-Quiet env _ _ (λ w.
      with_task-Quiet (env.scheduler w (task_of env id attempt at)) (task_of env id attempt at) w))

  pub ingest-Quiet : (e : Event) → Quiet env (ingest env e)
  unfolding ingest
  ingest-Quiet e = bind-Quiet env now _ (now-Quiet env) (λ at.
      bind-Quiet env _ _
        (transact-Quiet env _ _
          (add_event-Quiet env (key env "event" e.id) e at (event-Apart e.id)))
        (λ _. schedule-Quiet e.id "initial"))

  pub finish-Quiet :
      (name owner outcome : String) (delivery_name : Option String)
      → Quiet env (finish env name owner outcome delivery_name)
  unfolding finish
  finish-Quiet name owner outcome delivery_name =
      transact-Quiet env _ _ (finish_event-Quiet env name owner outcome delivery_name)

  probe-Quiet : (guard : HealthGuard) → Quiet env (Health.probe guard)
  probe-Quiet guard = look-Quiet env _ (λ w. done-Quiet env (guard.read w))

  alerted-Quiet : (o : Option Error) → Quiet env (Health.alerted o)
  alerted-Quiet none = done-Quiet env _
  alerted-Quiet (some e) = done-Quiet env _

  send_alert-Quiet :
      (guard : HealthGuard) (health : Option ChannelHealth)
      → Quiet env (Health.send_alert guard health)
  send_alert-Quiet guard none = done-Quiet env _
  send_alert-Quiet guard (some health) =
      option_rule (Quiet env) guard.alert (λ _. done-Quiet env _)
        (λ alert _. look-Quiet env _ (λ w. alerted-Quiet (alert w health)))

  probe_claimed-Quiet :
      (guard : HealthGuard) (owner : String) (at : Time) (claimed : Bool)
      → Quiet env (Health.probe_claimed env guard owner at claimed)
  probe_claimed-Quiet guard owner at false = done-Quiet env _
  probe_claimed-Quiet guard owner at true =
      bind-Quiet env _ _ (attempt-Quiet env _ (probe-Quiet guard)) (λ answer.
        bind-Quiet env _ _
          (transact-Quiet env _ _
            (Checks.store_probe-Quiet env (Health.health_key env guard) owner at answer))
          (λ health. bind-Quiet env _ _ (send_alert-Quiet guard health) (λ _. done-Quiet env _)))

  pub refresh-Quiet : (guard : HealthGuard) → Quiet env (Health.refresh env guard)
  unfolding Health.refresh
  refresh-Quiet guard = bind-Quiet env _ _ (fresh_id-Quiet env) (λ owner.
      bind-Quiet env _ _ (now-Quiet env) (λ at.
        bind-Quiet env _ _
          (transact-Quiet env _ _
            (Checks.claim_probe-Quiet env (Health.health_key env guard) owner at))
          (λ claimed. probe_claimed-Quiet guard owner at claimed)))

  pub get-Quiet : (name : String) → Quiet env (get env name)
  get-Quiet name = query-Quiet env (get_notification name)

  pub guard_allows-Quiet :
      (guard : HealthGuard) (template language : String)
      → Quiet env (Health.guard_allows env guard template language)
  unfolding Health.guard_allows
  guard_allows-Quiet guard template language =
      bind-Quiet env _ _ (get-Quiet (Health.health_key env guard)) (λ row.
        bind-Quiet env _ _ (now-Quiet env) (λ at.
          if_rule (Quiet env) row.operator_paused (λ _. done-Quiet env _)
            (λ _.
              if_rule (Quiet env) (after row.next_lookup_at at) (λ _. done-Quiet env _)
                (λ _. bind-Quiet env _ _ (attempt-Quiet env _ (refresh-Quiet guard)) (λ _.
                  bind-Quiet env _ _ (get-Quiet (Health.health_key env guard))
                    (λ _. done-Quiet env _))))))

  pub block-Quiet : (guard : HealthGuard) → Quiet env (Health.block env guard)
  unfolding Health.block
  block-Quiet guard =
      transact-Quiet env _ _ (Checks.block_row-Quiet env (Health.health_key env guard))
