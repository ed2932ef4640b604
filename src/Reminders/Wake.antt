-- ===== src/Reminders/Wake.antt =====
-- internal/application/reminders/service.go: the time that `scheduleWake` asks the task queue for.
pub mod Bounds
pub mod Chain
pub mod Retry
use omnichannel_booking_assi.Prelude.{
  ℕ, zero, suc, ◌+◌, ◌*◌, ◌/◌, Bool, true, false, not, ◌&&◌, if◌then◌else◌,
}
use omnichannel_booking_assi.Prelude.Time.{Time, after, before, day}
use omnichannel_booking_assi.Domain.Reminder.{Reminder}

abbrev pub max_task_delay : ℕ
max_task_delay = 29 * day

-- The loop, with fuel: `for !runAt.After(now) && runAt.Before(dueAt) { runAt = runAt.Add(maxTaskDelay) }`
unfoldable pub checkpoint : ℕ → Time → Time → Time → Time
checkpoint zero now due_at run_at = run_at
checkpoint (suc fuel) now due_at run_at = elim (not (after run_at now) && before run_at due_at) [
  | true ↦ checkpoint fuel now due_at (run_at + max_task_delay)
  | false ↦ run_at
]

-- Each round adds `max_task_delay`, so that many rounds and one more pass `now`.
abbrev pub enough_fuel : Time → ℕ
enough_fuel now = suc (now / max_task_delay)

-- `runAt`
unfoldable pub wake_at : Reminder → Time → Time
unfolding checkpoint
wake_at r now =
    let run_at = checkpoint (enough_fuel now) now r.due_at (r.created_at + max_task_delay) in
    if after r.due_at (now + max_task_delay)
    then if after run_at r.due_at then r.due_at else run_at
    else r.due_at
