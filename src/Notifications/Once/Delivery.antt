-- ===== src/Notifications/Once/Delivery.antt =====
-- `Deliver` (internal/application/notifications/service.go) does only allowed steps.
use omnichannel_booking_assi.Prelude.{
  String, Bool, not, ◌&&◌, ◌||◌, Option, none, some, List, [], ◌∷◌, ◌≡◌, if◌then◌else◌,
}
use omnichannel_booking_assi.Domain.Errors.{Error, Result, ok, err}
use omnichannel_booking_assi.Domain.Rules.{if_rule}
use omnichannel_booking_assi.Notifications.Routing.{Target}
use omnichannel_booking_assi.Notifications.Process.{
  Process, Call, Sending, done, then_do, on_result, ◌>>=◌,
}
use omnichannel_booking_assi.Notifications.Service.{Env, key, transact}
use omnichannel_booking_assi.Notifications.Recipients.{is_reminder}
use omnichannel_booking_assi.Notifications.Attempts.{
  Job, Reservation, reserved, already_rejected, final, delivery_id, delivery_name, route_of,
  try_targets, send_reserved, on_reservation, finish_job, confirm_channel, is_last, is_error,
  outcome_of, or_default,
}
use omnichannel_booking_assi.Notifications.Once.Tokens.{
  Quiet, Wp, Quiet-Wp, then-Wp, step-Wp, done-Wp, transact-Quiet, done-Quiet,
}
use omnichannel_booking_assi.Notifications.Once.Changes as Changes
use omnichannel_booking_assi.Notifications.Once.Calls.{finish-Quiet}
use omnichannel_booking_assi.Notifications.Once.Sends.{HoldsIfReserved, reserve-Wp, send-Allowed}

module _ (env : Env) where
  -- Whatever the call holds at its start, all its steps are allowed.
  abbrev pub Safe : {A : Type 0} → Process A → Type 0
  Safe p = (held : Option Sending) → Wp env p held (λ _ _. Unit {0})

  pub Quiet-Safe : {A : Type 0} (p : Process A) → Quiet env p → Safe p
  Quiet-Safe p h held = Quiet-Wp env p held _ h (λ _. tt)

  pub then-Safe :
      {A B : Type 0} (p : Process A) (k : A → Process B)
      → Safe p
      → ((a : A) → Safe (k a))
      → Safe (then_do p k)
  then-Safe p k h next held = then-Wp env p k held _ _ (h held) (λ held' a _. next a held')

  on_result-Safe :
      {A B : Type 0} (k : A → Call B)
      → ((a : A) → Safe (k a))
      → (r : Result A) → Safe (on_result k r)
  on_result-Safe k h (ok a) = h a
  on_result-Safe k h (err e) = λ held. done-Wp env _ held _ tt

  pub bind-Safe :
      {A B : Type 0} (p : Call A) (k : A → Call B)
      → Quiet env p
      → ((a : A) → Safe (k a))
      → Safe (p >>= k)
  bind-Safe p k h next = then-Safe p (on_result k) (Quiet-Safe p h) (on_result-Safe k next)

  pub done-Safe : {A : Type 0} (a : A) → Safe (done a)
  done-Safe a held = done-Wp env a held _ tt

  finish_job-Safe : (job : Job) (outcome : String) → Safe (finish_job env job outcome)
  unfolding finish_job
  finish_job-Safe job outcome =
      Quiet-Safe _ (finish-Quiet env job.name job.owner outcome (some (delivery_name env job)))

  confirm_channel-Quiet :
      (job : Job) (target : Target) (rejected : Bool) (failure : Option Error)
      → Quiet env (confirm_channel env job target rejected failure)
  unfolding confirm_channel
  confirm_channel-Quiet job target rejected failure =
      if_rule (Quiet env)
        (not (is_reminder job.notice.purpose) && (not (is_error failure) || not rejected))
        (λ _.
          transact-Quiet env _ _ (
            Changes.set_channel-Quiet env (key env "record" job.record_id) job.phone
              target.channel))
        (λ _. done-Quiet env _)

  abbrev token_of : Job → Target → Sending
  token_of job target = record {
    delivery = delivery_id job.record_id job.id;
    route = route_of target;
  }

  abbrev after_send : Job → Target → Bool → Call (Unit {0}) → Bool × Option Error → Call (Unit {0})
  after_send job target last next (rejected, failure) =
      confirm_channel env job target rejected failure >>= λ _.
      transact env (delivery_name env job ∷ []) (
        omnichannel_booking_assi.Notifications.Attempts.record_answer (delivery_name env job)
          rejected failure (route_of target))
      >>= λ _.
          if not (is_error failure) || not rejected || last
          then finish_job env job (outcome_of rejected failure (route_of target))
          else next

  after_send-Safe :
      (job : Job) (target : Target) (last : Bool) (next : Call (Unit {0}))
      (answer : Bool × Option Error)
      → Safe next
      → Safe (after_send job target last next answer)
  after_send-Safe job target last next (rejected, failure) h =
      bind-Safe _ _ (confirm_channel-Quiet job target rejected failure) (λ _.
        bind-Safe _ _
          (transact-Quiet env _ _ (
            Changes.record_answer-Quiet env (delivery_name env job) rejected failure
              (route_of target)))
          (λ _.
            if_rule Safe (not (is_error failure) || not rejected || last)
              (λ _. finish_job-Safe job _) (λ _. h)))

  -- With its permission the call may go to the provider.
  send_reserved-Wp :
      (job : Job) (target : Target) (last : Bool) (next : Call (Unit {0})) (held : Option Sending)
      → held ≡ some (token_of job target)
      → Safe next
      → Wp env (send_reserved env job target last next) held (λ _ _. Unit {0})
  unfolding send_reserved then_do
  send_reserved-Wp job target last next held h more = step-Wp env _ _ held _ (λ w. (
    none,
    send-Allowed env (delivery_id job.record_id job.id) (route_of target) job.at w held h,
    after_send-Safe job target last next (env.sender w target job.notice _) more none,
  ))

  on_reservation-Wp :
      (job : Job) (target : Target) (last : Bool) (next : Call (Unit {0})) (held : Option Sending)
      (r : Result Reservation)
      → HoldsIfReserved env (token_of job target) held r
      → Safe next
      → Wp env (on_result (on_reservation env job target last next) r) held (λ _ _. Unit {0})
  on_reservation-Wp job target last next held (err e) h more = done-Wp env _ held _ tt
  on_reservation-Wp job target last next held (ok reserved) h more =
      send_reserved-Wp job target last next held h more
  on_reservation-Wp job target last next held (ok (final outcome)) h more =
      finish_job-Safe job _ held
  on_reservation-Wp job target last next held (ok (already_rejected outcome)) h more =
      if_rule Safe last (λ _. finish_job-Safe job _) (λ _. more) held

  pub try_targets-Safe : (job : Job) (targets : List Target) → Safe (try_targets env job targets)
  unfolding try_targets
  try_targets-Safe job [] = done-Safe _
  try_targets-Safe job (target ∷ targets) = λ held.
      then-Wp env _ _ held _ _
        (reserve-Wp env (delivery_id job.record_id job.id) (route_of target) job.at held)
        (λ held' r h.
          on_reservation-Wp job target (is_last targets) (try_targets env job targets) held' r h
            (try_targets-Safe job targets))
