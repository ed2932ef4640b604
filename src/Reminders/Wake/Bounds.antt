-- ===== src/Reminders/Wake/Bounds.antt =====
-- A wake lies in the future, within the task queue's horizon, and never after the reminder is due.
use omnichannel_booking_assi.Prelude.{ℕ, zero, suc, ◌+◌, ◌*◌, ◌≤◌, ◌<◌, ◌⊎◌, inl, arith}
use omnichannel_booking_assi.Prelude.Time.{Time}
use omnichannel_booking_assi.Domain.Reminder.{Reminder}
use omnichannel_booking_assi.Reminders.Wake.{max_task_delay, checkpoint, enough_fuel, wake_at}

-- With enough fuel the loop ends because its test fails, and it overshoots `now` by one delay at most.
pub checkpoint_lem :
    (fuel : ℕ) (now due_at run_at : Time)
    → now < run_at + fuel * max_task_delay
    → run_at ≤ now + max_task_delay
    → let w = checkpoint fuel now due_at run_at in
      ((now < w) ⊎ (due_at ≤ w)) × (w ≤ now + max_task_delay)
unfolding checkpoint
checkpoint_lem zero now due_at run_at h b = (inl (omega arith), b)
checkpoint_lem (suc fuel) now due_at run_at h b =
    ground (arith, checkpoint_lem fuel now due_at (run_at + max_task_delay))

-- The wake of a reminder that was created by now and is due later: it is after now, at most 29 days
-- ahead, which the task queue accepts, and not after the reminder is due.
pub wake_at_bounds :
    (r : Reminder) (now : Time)
    → r.created_at ≤ now
    → now < r.due_at
    → (now < wake_at r now) × (wake_at r now ≤ now + max_task_delay) × (wake_at r now ≤ r.due_at)
unfolding wake_at
wake_at_bounds r now c d = ground (
  arith,
  checkpoint_lem (enough_fuel now) now r.due_at (r.created_at + max_task_delay) (omega arith)
      (omega arith),
)

pub wake_at-due : (r : Reminder) (now : Time) → wake_at r now ≤ r.due_at
unfolding wake_at
wake_at-due r now = ground arith
