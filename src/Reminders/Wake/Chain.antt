-- ===== src/Reminders/Wake/Chain.antt =====
-- The wakes of a long-horizon reminder: the same time for every retry, and an end.
use omnichannel_booking_assi.Prelude.{
  ℕ, zero, suc, ◌+◌, ◌*◌, ◌/◌, ◌≤◌, ◌<◌, ◌≡◌, refl, ◌⊎◌, inl, inr, false, not, ◌&&◌, arith, leb,
  Bool-cases, if◌then◌else◌,
}
use omnichannel_booking_assi.Prelude.Time.{Time, after, before}
use omnichannel_booking_assi.Domain.Reminder.{Reminder}
use omnichannel_booking_assi.Reminders.Wake.{max_task_delay, checkpoint, enough_fuel, wake_at}
use omnichannel_booking_assi.Reminders.Wake.Bounds.{wake_at_bounds}

-- Between two checkpoints the loop's result does not depend on the time.
checkpoint_stable :
    (f g : ℕ) (now later due_at run_at : Time)
    → now < run_at + f * max_task_delay
    → later < run_at + g * max_task_delay
    → now ≤ later
    → later < due_at
    → later < checkpoint f now due_at run_at
    → checkpoint g later due_at run_at ≡ checkpoint f now due_at run_at
unfolding checkpoint
checkpoint_stable zero zero now later due_at run_at a b c d e = refl
checkpoint_stable zero (suc g) now later due_at run_at a b c d e = ground arith
checkpoint_stable (suc f) zero now later due_at run_at a b c d e = ground arith
checkpoint_stable (suc f) (suc g) now later due_at run_at a b c d e =
    ground (arith, checkpoint_stable f g now later due_at (run_at + max_task_delay))

-- Until a reminder's next wake, while it is due beyond the horizon, the next wake stays the same.
pub wake_at_stable :
    (r : Reminder) (now later : Time)
    → now ≤ later
    → later < wake_at r now
    → later + max_task_delay < r.due_at
    → wake_at r later ≡ wake_at r now
unfolding wake_at
wake_at_stable r now later c w d = ground (
  arith,
  checkpoint_stable (enough_fuel now) (enough_fuel later) now later r.due_at
      (r.created_at + max_task_delay) (omega arith) (omega arith) c (omega arith),
)

-- A time that is a positive number of delays after the creation.
abbrev pub IsCheckpoint : Reminder → Time → Type 0
IsCheckpoint r t = (j : ℕ) × (t ≡ r.created_at + max_task_delay + j * max_task_delay)

checkpoint_form :
    (fuel : ℕ) (now due_at run_at : Time)
    → (j : ℕ) × (checkpoint fuel now due_at run_at ≡ run_at + j * max_task_delay)
unfolding checkpoint
checkpoint_form zero now due_at run_at = (0, omega arith)
checkpoint_form (suc fuel) now due_at run_at =
    elim (Bool-cases (not (after run_at now) && before run_at due_at)) [
      | inl go ↦
          let (j, e) = checkpoint_form fuel now due_at (run_at + max_task_delay) in
          (suc j, rw (go, checkpoint) (omega arith))
      | inr stop ↦ (0, rw (stop, checkpoint) (omega arith))
    ]

wake_at-IsCheckpoint :
    (r : Reminder) (now : Time) → (wake_at r now ≡ r.due_at) ⊎ IsCheckpoint r (wake_at r now)
unfolding wake_at
wake_at-IsCheckpoint r now =
    let (j, e) = checkpoint_form (enough_fuel now) now r.due_at (r.created_at + max_task_delay) in
    elim (Bool-cases (after r.due_at (now + max_task_delay))) [
      | inr near ↦ inl (rw near)
      | inl far ↦
          elim (Bool-cases (
            after (checkpoint (enough_fuel now) now r.due_at (r.created_at + max_task_delay))
              r.due_at)) [
                | inl past ↦ inl (rw (far, past))
                | inr before ↦ inr (j, rw (far, before) e)
              ]
    ]

-- At a checkpoint the loop goes on to the next one.
checkpoint_next :
    (fuel j : ℕ) (due_at run_at : Time)
    → j < fuel
    → run_at + j * max_task_delay < due_at
    → checkpoint (suc fuel) (run_at + j * max_task_delay) due_at run_at
      ≡ run_at + suc j * max_task_delay
unfolding checkpoint
checkpoint_next zero j due_at run_at h d = absurd (omega arith)
checkpoint_next (suc fuel) zero due_at run_at h d = ground arith
checkpoint_next (suc fuel) (suc j) due_at run_at h d =
    let e : run_at + suc j * max_task_delay ≡ run_at + max_task_delay + j * max_task_delay =
      omega arith in
    rw e (ground (arith, checkpoint_next fuel j due_at (run_at + max_task_delay)))

wake_at_next :
    (r : Reminder) (now : Time)
    → IsCheckpoint r now
    → now < r.due_at
    → (wake_at r now ≡ r.due_at) ⊎ (wake_at r now ≡ now + max_task_delay)
unfolding wake_at
wake_at_next r now (j, e) d =
    let run_at = r.created_at + max_task_delay in
    let next =
      checkpoint_next (now / max_task_delay) j r.due_at run_at (omega arith) (omega arith) in
    let step : checkpoint (enough_fuel now) now r.due_at run_at ≡ run_at + suc j * max_task_delay =
      rw (← e) at next in
    ground (arith, step)

-- The time of the task after `n` more wakes; a reminder that is due has no more.
unfoldable pub wakes : ℕ → Reminder → Time → Time
wakes zero r now = now
wakes (suc n) r now = let rest = wakes n r (wake_at r now) in if leb r.due_at now then now else rest

wakes_due : (n : ℕ) (r : Reminder) → wakes n r r.due_at ≡ r.due_at
unfolding wakes
wakes_due zero r = refl
wakes_due (suc n) r = ground arith

wakes_from_checkpoint :
    (n : ℕ) (r : Reminder) (now : Time)
    → IsCheckpoint r now
    → r.created_at ≤ now
    → now ≤ r.due_at
    → r.due_at ≤ now + n * max_task_delay
    → wakes n r now ≡ r.due_at
unfolding wakes
wakes_from_checkpoint zero r now k c d b = omega arith
wakes_from_checkpoint (suc n) r now k c d b = elim (Bool-cases (leb r.due_at now)) [
  | inl due ↦ rw due (ground arith)
  | inr early ↦
      let soon : now < r.due_at = ground arith in
      rw early (elim (wake_at_next r now k soon) [
        | inl e ↦ rw e (wakes_due n r)
        | inr e ↦
            let (j, f) = k in
            wakes_from_checkpoint n r (wake_at r now) (suc j, omega arith)
              (omega (arith, wake_at_bounds r now c soon))
              (omega (arith, wake_at_bounds r now c soon)) (omega arith)
      ])
]

-- The chain of wakes ends: a reminder that is due at most `n` horizons from now is woken at its due
-- time after `n + 1` wakes at most.
pub wakes_reach :
    (n : ℕ) (r : Reminder) (now : Time)
    → r.created_at ≤ now
    → now < r.due_at
    → r.due_at ≤ now + n * max_task_delay
    → wakes (suc n) r now ≡ r.due_at
unfolding wakes
wakes_reach n r now c d b =
    let early : leb r.due_at now ≡ false = ground arith in
    let bounds = wake_at_bounds r now c d in
    rw early (elim (wake_at-IsCheckpoint r now) [
      | inl e ↦ rw e (wakes_due n r)
      | inr k ↦
          wakes_from_checkpoint n r (wake_at r now) k (omega (arith, bounds)) bounds.2
            (omega (arith, bounds))
    ])
