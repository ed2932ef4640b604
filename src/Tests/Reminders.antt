-- ===== src/Tests/Reminders.antt =====
-- Tests of the reminders: the store's methods, the wakes, and deliveries.
use omnichannel_booking_assi.Prelude.{
  ℕ, ◌+◌, ◌*◌, ◌≤◌, ◌<◌, ◌≡◌, ◌≢◌, refl, ◌⊎◌, inl, inr, String, Bool, true, false, Option, none,
  some, List, [], ◌∷◌, arith, str_cases, eq_iff, length, eq_false→ne,
}
use omnichannel_booking_assi.Prelude.Dict.{lookup}
use omnichannel_booking_assi.Prelude.Time.{day}
use omnichannel_booking_assi.Domain.Errors.{ok}
use omnichannel_booking_assi.Domain.Reminder.{
  Reminder, scheduled, delivering, sent, skipped, is_final,
}
use omnichannel_booking_assi.Memory.Store.{Store}
use omnichannel_booking_assi.Memory.Reminders.{claim_reminder, finish_reminder, release_reminder}
use omnichannel_booking_assi.Memory.Reminders.Steps.{
  Call, ensure_call, claim_call, finish_call, release_call, apply, run, at_id, apply-Follows,
}
use omnichannel_booking_assi.Memory.Reminders.Contract.{Follows}
use omnichannel_booking_assi.Memory.Reminders.Lease.{
  AllForeign, leased, final_absorbs, lease_exclusive,
}
use omnichannel_booking_assi.Memory.Reminders.Finish.{outcomes, outcomes-le-one}
use omnichannel_booking_assi.Memory.Reminders.Own.{IsOwn}
use omnichannel_booking_assi.Reminders.Wake.{wake_at, max_task_delay}
use omnichannel_booking_assi.Reminders.Wake.Bounds.{wake_at_bounds}
use omnichannel_booking_assi.Reminders.Wake.Chain.{wakes, wakes_reach}
use omnichannel_booking_assi.Reminders.Service.{Env, World, Task, schedule_wake}
use omnichannel_booking_assi.Reminders.Wake.Retry.{Asked, schedule_wake_stable}
use omnichannel_booking_assi.Reminders.Deliver.{deliver, deliver_claimed}
use omnichannel_booking_assi.Reminders.Sending.Evolves.{handed}
use omnichannel_booking_assi.Reminders.Sending.Ends.{End, deliver_claimed-End}
use omnichannel_booking_assi.Reminders.Sending.Delivery.{Outcome, deliver-Outcome}
use omnichannel_booking_assi.Reminders.Sending.Once.{
  Event, planning, delivery, sent_for, sent_for-le-one,
}
use omnichannel_booking_assi.Tests.Samples.{
  empty_store, notice, planned, calm, start, thread, visit,
}

apply-Follows_example :
    Follows
      (claim_call "r1" "a" 1500 1800)
      "r1"
      (at_id planned "r1")
      (at_id (apply planned (claim_call "r1" "a" 1500 1800)) "r1")
apply-Follows_example = apply-Follows planned (claim_call "r1" "a" 1500 1800) "r1"

abbrev finished : Store
finished = record empty_store { reminders = ("r1", record notice { status = sent }) ∷ [] }

abbrev late_calls : List Call
late_calls =
    claim_call "r1" "b" 1600 1900 ∷ finish_call "r1" "b" skipped 1700 ∷ ensure_call notice ∷ []

stored_final : at_id finished "r1" ≡ some (record notice { status = sent })
unfolding lookup
stored_final = refl

final_absorbs_example :
    at_id (run finished late_calls) "r1" ≡ some (record notice { status = sent })
final_absorbs_example =
    final_absorbs finished "r1" (record notice { status = sent }) late_calls stored_final refl

stored_notice : at_id planned "r1" ≡ some notice
unfolding lookup
stored_notice = refl

granted_notice : (claim_reminder planned "r1" "a" 1500 1800).1 ≡ ok (leased notice "a" 1800, true)
unfolding claim_reminder lookup
granted_notice = refl

abbrev rivals : List Call
rivals = claim_call "r1" "b" 1600 1900 ∷ finish_call "r1" "b" sent 1650 ∷ release_call "r1" "b" ∷ []

rivals-AllForeign : AllForeign "r1" (leased notice "a" 1800) rivals
rivals-AllForeign = (
  λ _. inr (refl, omega arith),
  (λ _. inr (eq_false→ne "b" "a" refl), (λ _. inr (eq_false→ne "b" "a" refl), tt)),
)

lease_exclusive_example :
    let t = run (claim_reminder planned "r1" "a" 1500 1800).0 rivals in
    (claim_reminder t "r1" "c" 1700 2000 ≡ (t, ok (leased notice "a" 1800, false)))
    × ((finish_reminder t "r1" "a" sent 1750).1 ≡ none)
lease_exclusive_example =
    lease_exclusive planned "r1" "a" 1500 1800 notice rivals "c" 1700 2000 sent 1750 stored_notice
      granted_notice rivals-AllForeign (omega arith) refl

abbrev two_finishes : List Call
two_finishes =
    claim_call "r1" "a" 1500 1800
    ∷ finish_call "r1" "a" sent 1600
    ∷ finish_call "r1" "a" skipped 1700
    ∷ []

outcomes_one : outcomes "r1" planned two_finishes ≡ 1
unfolding outcomes finish_reminder lookup apply omnichannel_booking_assi.Prelude.Dict.insert
outcomes_one = refl

outcomes-le-one_example : outcomes "r1" planned two_finishes ≤ 1
outcomes-le-one_example = outcomes-le-one planned "r1" two_finishes

-- An appointment about three months ahead.
abbrev distant : Reminder
distant = record notice { due_at = 100 * day }

wake_at_bounds_example :
    (5 < wake_at distant 5)
    × (wake_at distant 5 ≤ 5 + max_task_delay)
    × (wake_at distant 5 ≤ distant.due_at)
wake_at_bounds_example = wake_at_bounds distant 5 (omega arith) (omega arith)

wake_after : 6 < wake_at distant 5
unfolding wake_at
wake_after = ground arith

wakes_reach_example : wakes 5 distant 5 ≡ distant.due_at
wakes_reach_example = wakes_reach 4 distant 5 (omega arith) (omega arith) (omega arith)

abbrev claimed : Reminder
claimed = record notice { status = delivering; claim_id = "a"; claim_expires = 1800 }

abbrev claimed_world : World
claimed_world = record start { store = record planned { reminders = ("r1", claimed) ∷ [] } }

schedule_wake_stable_example :
    (task : Task) × (task.reminder_id ≡ distant.id)
    × (task.run_at ≡ wake_at distant 5)
    × Asked calm task claimed_world (schedule_wake calm claimed_world distant 5)
    × Asked calm task claimed_world (schedule_wake calm claimed_world distant 6)
schedule_wake_stable_example =
    schedule_wake_stable calm distant 5 6 claimed_world claimed_world (omega arith) wake_after
      (omega arith)

stored_claimed : at_id claimed_world.store "r1" ≡ some claimed
unfolding lookup
stored_claimed = refl

deliver_claimed-End_example :
    End claimed (handed claimed_world.sends) (deliver_claimed calm claimed_world claimed "a" 1500)
deliver_claimed-End_example =
    deliver_claimed-End calm claimed_world claimed 1500 refl stored_claimed

deliver-Outcome_example : Outcome start notice 1500 (deliver calm start "r1")
deliver-Outcome_example = deliver-Outcome calm start notice stored_notice

-- The message is out, and the reminder is sent.
deliver_runs :
    ((deliver calm start "r1").1 ≡ none)
    × (length (deliver calm start "r1").0.sends ≡ 1)
    × (at_id (deliver calm start "r1").0.store "r1"
        ≡ some (record notice { status = sent; finished_at = 1500 }))
unfolding deliver omnichannel_booking_assi.Memory.Reminders.find_reminder lookup
    omnichannel_booking_assi.Domain.Reminder.terminal claim_reminder
    omnichannel_booking_assi.Reminders.Service.supports_reminder
    omnichannel_booking_assi.Memory.Bookings.find_in
    omnichannel_booking_assi.Memory.Bookings.list_bookings
    omnichannel_booking_assi.Memory.Bookings.sort_bookings
    omnichannel_booking_assi.Memory.Bookings.own_bookings
    omnichannel_booking_assi.Memory.Bookings.insert_sorted
    omnichannel_booking_assi.Memory.Bookings.aliased_bookings
    omnichannel_booking_assi.Memory.Transcript.append
    omnichannel_booking_assi.Memory.Transcript.is_recorded finish_reminder
    omnichannel_booking_assi.Prelude.Dict.insert
deliver_runs = (refl, refl, refl)

planned-IsOwn : (k : String) → IsOwn k planned
unfolding lookup
planned-IsOwn k r h = elim (str_cases "r1" k) [
  | inl same ↦ let e : notice ≡ r = ground (arith, eq_iff "r1" k) in rw (← e) same
  | inr ne ↦ absurd (ground (arith, eq_iff "r1" k))
]

abbrev twice : List Event
twice = delivery calm "r1" ∷ planning calm visit thread "en" ∷ delivery calm "r1" ∷ []

sent_for-le-one_example : sent_for "r1" start twice ≤ 1
sent_for-le-one_example = sent_for-le-one "r1" start twice planned-IsOwn
