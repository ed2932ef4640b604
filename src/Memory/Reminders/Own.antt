-- ===== src/Memory/Reminders/Own.antt =====
-- A reminder is stored under its own id.
use omnichannel_booking_assi.Prelude.{
  ◌≡◌, refl, inl, inr, String, some, arith, eq_iff, Option-cases,
}
use omnichannel_booking_assi.Prelude.Dict.{insert, lookup-insert}
use omnichannel_booking_assi.Domain.Reminder.{Reminder, scheduled, delivering}
use omnichannel_booking_assi.Memory.Store.{Store}
use omnichannel_booking_assi.Memory.Reminders.{
  ensure_reminder, claim_reminder, finish_reminder, release_reminder,
}
use omnichannel_booking_assi.Memory.Reminders.Steps.{
  Call, ensure_call, claim_call, finish_call, release_call, apply, at_id,
}

abbrev pub IsOwn : String → Store → Type 0
IsOwn id s = (r : Reminder) → at_id s id ≡ some r → r.id ≡ id

pub ensure-IsOwn :
    (id : String) (s : Store) (c : Reminder) → IsOwn id s → IsOwn id (ensure_reminder s c).0
unfolding ensure_reminder
ensure-IsOwn id s c own r h =
    ground (arith, own r, eq_iff c.id id, lookup-insert c.id id c s.reminders)

-- A write that leaves the id of a stored reminder.
write-IsOwn :
    (id k : String) (s : Store) (x x' : Reminder)
    → at_id s k ≡ some x
    → x'.id ≡ x.id
    → IsOwn id s
    → IsOwn id (record s { reminders = insert k x' s.reminders })
write-IsOwn id k s x x' e d own r h =
    ground (arith, own r, own x, eq_iff k id, lookup-insert k id x' s.reminders)

pub apply-IsOwn : (id : String) (s : Store) (c : Call) → IsOwn id s → IsOwn id (apply s c)
unfolding apply claim_reminder finish_reminder release_reminder
apply-IsOwn id s (ensure_call c) own = ensure-IsOwn id s c own
apply-IsOwn id s (claim_call k claim_id at until) own = elim (Option-cases (at_id s k)) [
  | inl absent ↦ λ r h. own r (ground arith)
  | inr (x, e) ↦ λ r h. ground (
    arith,
    own r,
    write-IsOwn id k s x
        (record x { status = delivering; claim_id = claim_id; claim_expires = until }) e refl own r,
  )
]
apply-IsOwn id s (finish_call k claim_id status at) own = elim (Option-cases (at_id s k)) [
  | inl absent ↦ λ r h. own r (ground arith)
  | inr (x, e) ↦ λ r h. ground (
    arith,
    own r,
    write-IsOwn id k s x
        (record x { status = status; finished_at = at; claim_id = ""; claim_expires = 0 }) e refl
        own r,
  )
]
apply-IsOwn id s (release_call k claim_id) own = elim (Option-cases (at_id s k)) [
  | inl absent ↦ λ r h. own r (ground arith)
  | inr (x, e) ↦ λ r h. ground (
    arith,
    own r,
    write-IsOwn id k s x (record x { status = scheduled; claim_id = ""; claim_expires = 0 }) e refl
        own r,
  )
]
