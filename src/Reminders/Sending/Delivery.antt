-- ===== src/Reminders/Sending/Delivery.antt =====
-- What a whole delivery does, from the reading of the reminder to the release of its claim.
use omnichannel_booking_assi.Prelude.{
  suc, ◌<◌, ◌≤◌, ◌≡◌, refl, sym, ◌⊎◌, inl, inr, String, true, false, Option, none, some, [], ◌∷◌,
  ◌++◌, arith, subst, ltb→lt, eq_refl, if◌then◌else◌, Option-cases, Bool-cases,
}
use omnichannel_booking_assi.Prelude.Int.{pos}
use omnichannel_booking_assi.Prelude.Dict.{lookup-insert_self}
use omnichannel_booking_assi.Prelude.Time.{Time, add, after}
use omnichannel_booking_assi.Domain.Errors.{Error, ok, wrapped, delivery_busy}
use omnichannel_booking_assi.Domain.Rules.{if_rule, option_rule}
use omnichannel_booking_assi.Domain.Reminder.{
  Reminder, scheduled, delivering, sent, skipped, is_final, terminal,
}
use omnichannel_booking_assi.Memory.Store.{Store}
use omnichannel_booking_assi.Memory.Reminders.{
  claim_reminder, find_reminder, release_reminder, is_leased,
}
use omnichannel_booking_assi.Memory.Reminders.Steps.{claim_call, release_call, apply, at_id}
use omnichannel_booking_assi.Memory.Reminders.Lease.{leased}
use omnichannel_booking_assi.Memory.Reminders.Own.{IsOwn}
use omnichannel_booking_assi.Reminders.Service.{Env, World, Task, schedule_wake, joined}
use omnichannel_booking_assi.Reminders.Wake.{wake_at}
use omnichannel_booking_assi.Reminders.Wake.Bounds.{wake_at-due}
use omnichannel_booking_assi.Reminders.Deliver.{
  Progress, claim_duration, deliver_claimed, settle, deliver_due, deliver,
}
use omnichannel_booking_assi.Reminders.Sending.Keeps.{schedule_wake-Keeps}
use omnichannel_booking_assi.Reminders.Sending.Evolves.{
  handed, Evolves, Evolves-refl, Evolves-trans, Keeps-Evolves, call-Evolves,
}
use omnichannel_booking_assi.Reminders.Sending.Ends.{
  End, retryable, dropped, delivered, deliver_claimed-End, deliver_claimed-Evolves,
}

-- How a delivery of the reminder `r` that is stored in `w` ends.
pub data Outcome (w : World) (r : Reminder) (now : Time) (p : World × Option Error) : Type 0 where
  -- An error: the reminder is as it was, another delivery holds it or it could not be queued.
  refused :
      (e : Error)
      → p.1 ≡ some e
      → at_id p.0.store r.id ≡ some r
      → handed p.0.sends ≡ handed w.sends
      → Outcome w r now p
  -- The reminder was final before.
  repeated : is_final r.status ≡ true → p ≡ (w, none) → Outcome w r now p
  -- It is not due yet: a task will wake it, no later than it is due.
  queued :
      p.1 ≡ none
      → now < r.due_at
      → (t : Task) → p.0 ≡ record w { tasks = w.tasks ++ t ∷ [] }
      → t.reminder_id ≡ r.id
      → t.run_at ≤ r.due_at
      → Outcome w r now p
  -- An error: nothing was accepted, and the reminder is scheduled again.
  given_back :
      (e : Error)
      → p.1 ≡ some e
      → (r' : Reminder) → at_id p.0.store r.id ≡ some r'
      → r'.status ≡ scheduled
      → handed p.0.sends ≡ handed w.sends
      → Outcome w r now p
  -- The reminder is skipped, and nothing was accepted.
  left_out :
      p.1 ≡ none
      → (r' : Reminder) → at_id p.0.store r.id ≡ some r'
      → r'.status ≡ skipped
      → handed p.0.sends ≡ handed w.sends
      → Outcome w r now p
  -- The reminder is sent, by one message, and was not final before.
  sent_out :
      p.1 ≡ none
      → (r' : Reminder) → at_id p.0.store r.id ≡ some r'
      → r'.status ≡ sent
      → handed p.0.sends ≡ suc (handed w.sends)
      → is_final r.status ≡ false
      → Outcome w r now p

release-held :
    (s : Store) (r : Reminder)
    → r.status ≡ delivering
    → at_id s r.id ≡ some r
    → at_id (release_reminder s r.id r.claim_id).0 r.id
      ≡ some (record r { status = scheduled; claim_id = ""; claim_expires = 0 })
unfolding release_reminder
release-held s r d h =
    let r' : Reminder = record r { status = scheduled; claim_id = ""; claim_expires = 0 } in
    ground (arith, eq_refl r.claim_id, lookup-insert_self r.id r' s.reminders)

release-Evolves :
    (w : World) (id claim_id : String)
    → Evolves w (record w { store = (release_reminder w.store id claim_id).0 })
unfolding apply
release-Evolves w id claim_id = call-Evolves w (release_call id claim_id)

settle-Outcome :
    (w : World) (r r' : Reminder) (now : Time) (p : Progress)
    → r'.id ≡ r.id
    → is_final r.status ≡ false
    → r'.status ≡ delivering
    → End r' (handed w.sends) p
    → Outcome w r now (settle p r'.id r'.claim_id)
unfolding settle
settle-Outcome w r r' now p same f d (retryable u e x h n) =
    let back : Reminder = record r' { status = scheduled; claim_id = ""; claim_expires = 0 } in
    let stored = release-held p.world.store r' d h in
    rw u (given_back e x back (rw (← same) stored) refl n)
settle-Outcome w r r' now p same f d (dropped u x q h s n) = rw u (left_out x q (rw (← same) h) s n)
settle-Outcome w r r' now p same f d (delivered u x q h s n) =
    rw u (sent_out x q (rw (← same) h) s n f)

settle-Evolves :
    (w : World) (p : Progress) (id claim_id : String)
    → Evolves w p.world
    → Evolves w (settle p id claim_id).0
unfolding settle
settle-Evolves w p id claim_id h =
    if_rule (λ (q : World × Option Error). Evolves w q.0) p.unreleased
      (λ _. Evolves-trans w p.world _ h (release-Evolves p.world id claim_id)) (λ _. h)

claim-Evolves :
    (w : World) (id claim_id : String) (at until : Time)
    → Evolves w (record w { store = (claim_reminder w.store id claim_id at until).0 })
unfolding apply
claim-Evolves w id claim_id at until = call-Evolves w (claim_call id claim_id at until)

-- A claim either is refused, since the reminder is final or leased, or stores the lease.
claim_cases :
    (s : Store) (r : Reminder) (c : String) (at until : Time)
    → at_id s r.id ≡ some r
    → is_final r.status ≡ false
    → ((claim_reminder s r.id c at until).1 ≡ ok (r, false))
        × (at_id (claim_reminder s r.id c at until).0 r.id ≡ some r)
      ⊎ ((claim_reminder s r.id c at until).1 ≡ ok (leased r c until, true))
        × (at_id (claim_reminder s r.id c at until).0 r.id ≡ some (leased r c until))
unfolding claim_reminder terminal
claim_cases s r c at until h f = elim (Bool-cases (is_leased r at)) [
  | inl held ↦ inl (ground arith, ground arith)
  | inr free ↦
      let stored = lookup-insert_self r.id (leased r c until) s.reminders in
      inr (ground arith, ground (arith, stored))
]

due-Outcome :
    (env : Env) (w : World) (r : Reminder) (now : Time)
    → at_id w.store r.id ≡ some r
    → is_final r.status ≡ false
    → Outcome w r now (deliver_due env w r now) × Evolves w (deliver_due env w r now).0
unfolding deliver_due terminal
due-Outcome env w r now h f =
    let c = env.new_id 0 in
    let until = add now (pos claim_duration) in
    elim (claim_cases w.store r c now until h f) [
      | inl (e, stored) ↦
          rw (e, f, deliver_due)
            (refused delivery_busy refl stored refl, claim-Evolves w r.id c now until)
      | inr (e, stored) ↦
          let r' = leased r c until in
          let w' = record w { store = (claim_reminder w.store r.id c now until).0 } in
          let p = deliver_claimed env w' r' c now in
          rw (e, deliver_due)
            (
              settle-Outcome w r r' now p refl f refl
                  (deliver_claimed-End env w' r' now refl stored),
              settle-Evolves w p r'.id c (
                  Evolves-trans w w' p.world (claim-Evolves w r.id c now until)
                    (deliver_claimed-Evolves env w' r' now refl stored)),
            )
    ]

wake-Outcome :
    (env : Env) (w : World) (r : Reminder) (now : Time)
    → at_id w.store r.id ≡ some r
    → now < r.due_at
    → Outcome w r now (schedule_wake env w r now) × Evolves w (schedule_wake env w r now).0
unfolding schedule_wake
wake-Outcome env w r now h early =
    let t : Task = record {
      id = env.hash_id "reminder-task" (joined r.id (env.format_time (wake_at r now)));
      reminder_id = r.id;
      run_at = wake_at r now;
    } in
    (
      option_rule (Outcome w r now) (env.schedule t)
          (λ _. queued refl early t refl refl (wake_at-due r now))
          (λ e _. refused (wrapped "schedule reminder wake" e) refl h refl),
      Keeps-Evolves w _ (schedule_wake-Keeps env w r now),
    )

both :
    (env : Env) (w : World) (r : Reminder)
    → at_id w.store r.id ≡ some r
    → Outcome w r (env.clock 0) (deliver env w r.id) × Evolves w (deliver env w r.id).0
unfolding deliver find_reminder terminal
both env w r h =
    let P = λ (p : World × Option Error). Outcome w r (env.clock 0) p × Evolves w p.0 in
    rw (h, deliver)
      (if_rule P (is_final r.status) {x = (w, none)}
        {y = if after r.due_at (env.clock 0)
          then schedule_wake env w r (env.clock 0)
          else deliver_due env w r (env.clock 0)}
        (λ f. (repeated f refl, Evolves-refl w))
        (λ f.
          if_rule P (after r.due_at (env.clock 0))
            (λ e. wake-Outcome env w r (env.clock 0) h (ltb→lt (env.clock 0) r.due_at e))
            (λ _. due-Outcome env w r (env.clock 0) h f)))

-- Whatever the environment answers, a delivery of a stored reminder (under its own id) ends in one
-- of these ways. With an error: the reminder is as before or scheduled again, and no message was
-- accepted. Without an error: the reminder was final before and nothing changes; or it is not due,
-- and the only change is a new task for it that runs no later than it is due; or it is skipped, and
-- no message was accepted; or it is sent, and one message was accepted.
pub deliver-Outcome :
    (env : Env) (w : World) (r : Reminder)
    → at_id w.store r.id ≡ some r
    → Outcome w r (env.clock 0) (deliver env w r.id)
deliver-Outcome env w r h = (both env w r h).0

pub deliver-Evolves :
    (env : Env) (w : World) (id : String) → IsOwn id w.store → Evolves w (deliver env w id).0
unfolding deliver find_reminder
deliver-Evolves env w id own = elim (Option-cases (at_id w.store id)) [
  | inl absent ↦ rw (absent, deliver) (Evolves-refl w)
  | inr (r, h) ↦
      let same = own r h in
      let h' : at_id w.store r.id ≡ some r = subst (λ k. at_id w.store k ≡ some r) (sym same) h in
      subst (λ k. Evolves w (deliver env w k).0) same (both env w r h').1
]
