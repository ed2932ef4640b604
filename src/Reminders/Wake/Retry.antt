-- ===== src/Reminders/Wake/Retry.antt =====
-- internal/application/reminders/service.go, scheduleWake: retries ask for the same task.
use omnichannel_booking_assi.Prelude.{
  subst, ◌+◌, ◌≤◌, ◌<◌, ◌≡◌, refl, ◌⊎◌, inl, inr, Option, none, some, [], ◌∷◌, ◌++◌, Option-cases,
}
use omnichannel_booking_assi.Prelude.Time.{Time}
use omnichannel_booking_assi.Domain.Errors.{Error, wrapped}
use omnichannel_booking_assi.Domain.Reminder.{Reminder}
use omnichannel_booking_assi.Reminders.Service.{Env, World, Task, schedule_wake, joined}
use omnichannel_booking_assi.Reminders.Wake.{wake_at, max_task_delay}
use omnichannel_booking_assi.Reminders.Wake.Chain.{wake_at_stable}

-- The queue was asked for the task, and its answer decides what the call returns.
abbrev pub Asked : Env → Task → World → World × Option Error → Type 0
Asked env task w result =
    (env.schedule task ≡ none) × (result ≡ (record w { tasks = w.tasks ++ task ∷ [] }, none))
    ⊎ ((e : Error) × (env.schedule task ≡ some e)
        × (result ≡ (w, some (wrapped "schedule reminder wake" e))))

-- The task for a wake; its name is made of the reminder's id and the time.
abbrev task_at : Env → Reminder → Time → Task
task_at env r run_at = record {
  id = env.hash_id "reminder-task" (joined r.id (env.format_time run_at));
  reminder_id = r.id;
  run_at = run_at;
}

schedule_wake-Asked :
    (env : Env) (r : Reminder) (now : Time) (w : World)
    → Asked env (task_at env r (wake_at r now)) w (schedule_wake env w r now)
unfolding schedule_wake
schedule_wake-Asked env r now w =
    elim (Option-cases (env.schedule (task_at env r (wake_at r now)))) [
      | inl accepted ↦ inl (accepted, rw (accepted, schedule_wake) refl)
      | inr (e, refused) ↦ inr (e, refused, rw (refused, schedule_wake) refl)
    ]

-- Until a reminder's next wake, while it is due beyond the horizon, every call of `scheduleWake`
-- asks the queue for one and the same task, in whatever world the calls are made: the same name,
-- the same reminder and the same time, which is the next wake. The call records the task if the
-- queue accepts it, and returns the queue's error, wrapped, if not.
pub schedule_wake_stable :
    (env : Env) (r : Reminder) (now later : Time) (w v : World)
    → now ≤ later
    → later < wake_at r now
    → later + max_task_delay < r.due_at
    → (task : Task) × (task.reminder_id ≡ r.id)
      × (task.run_at ≡ wake_at r now)
      × Asked env task w (schedule_wake env w r now)
      × Asked env task v (schedule_wake env v r later)
schedule_wake_stable env r now later w v c soon far = (
  task_at env r (wake_at r now),
  refl,
  refl,
  schedule_wake-Asked env r now w,
  subst (λ t. Asked env (task_at env r t) v (schedule_wake env v r later))
      (wake_at_stable r now later c soon far) (schedule_wake-Asked env r later v),
)
