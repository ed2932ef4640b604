-- ===== src/Memory/Reminders/Finish.antt =====
-- The outcome of a reminder is recorded once at most.
use omnichannel_booking_assi.Prelude.{
  ℕ, ◌≤◌, suc, ◌≡◌, ◌≢◌, refl, inl, inr, String, Bool, true, false, ◌&&◌, Option, none, some, List,
  [], ◌∷◌, arith, eq_iff, eq_refl, ◌==◌, Bool-cases, Option-cases, if◌then◌else◌,
}
use omnichannel_booking_assi.Prelude.Dict.{lookup-insert}
use omnichannel_booking_assi.Prelude.Time.{Time}
use omnichannel_booking_assi.Domain.Errors.{Error}
use omnichannel_booking_assi.Domain.Reminder.{Reminder, Status, is_final}
use omnichannel_booking_assi.Memory.Store.{Store}
use omnichannel_booking_assi.Memory.Reminders.{finish_reminder}
use omnichannel_booking_assi.Memory.Reminders.Steps.{Call, finish_call, apply, run, at_id}
use omnichannel_booking_assi.Memory.Reminders.Lease.{final_absorbs}

abbrev is_none : Option Error → Bool
is_none none = true
is_none (some _) = false

-- Whether a call records an outcome for the id.
abbrev pub records : String → Store → Call → Bool
records id s (finish_call k claim_id status at) =
    k == id && is_none (finish_reminder s k claim_id status at).1
records id s _ = false

-- How many calls of a run record an outcome for the id.
unfoldable pub outcomes : String → Store → List Call → ℕ
outcomes id s [] = 0
outcomes id s (c ∷ cs) =
    let rest = outcomes id (apply s c) cs in if records id s c then suc rest else rest

-- A reminder whose outcome has just been recorded is final.
finish-final :
    (s : Store) (id claim_id : String) (status : Status) (at : Time)
    → (finish_reminder s id claim_id status at).1 ≡ none
    → (r : Reminder) × (at_id (finish_reminder s id claim_id status at).0 id ≡ some r)
      × (is_final r.status ≡ true)
unfolding finish_reminder
finish-final s id claim_id status at h = elim (Option-cases (at_id s id)) [
  | inl absent ↦ absurd (ground arith)
  | inr (r, e) ↦
      let r' : Reminder = record r {
        status = status;
        finished_at = at;
        claim_id = "";
        claim_expires = 0;
      } in
      (r', ground (arith, lookup-insert id id r' s.reminders, eq_refl id), ground arith)
]

finish_refused :
    (s : Store) (id claim_id : String) (status : Status) (at : Time) (r : Reminder)
    → at_id s id ≡ some r
    → is_final r.status ≡ true
    → (finish_reminder s id claim_id status at).1 ≢ none
unfolding finish_reminder
finish_refused s id claim_id status at r h f = ground arith

final-records :
    (s : Store) (id : String) (r : Reminder) (c : Call)
    → at_id s id ≡ some r
    → is_final r.status ≡ true
    → records id s c ≡ false
final-records s id r (finish_call k claim_id status at) h f =
    ground (arith, eq_iff k id, finish_refused s k claim_id status at r)
final-records s id r c h f = refl

outcomes_final :
    (s : Store) (id : String) (r : Reminder) (cs : List Call)
    → at_id s id ≡ some r
    → is_final r.status ≡ true
    → outcomes id s cs ≡ 0
unfolding outcomes run
outcomes_final s id r [] h f = refl
outcomes_final s id r (c ∷ cs) h f =
    rw (final-records s id r c h f)
      (outcomes_final (apply s c) id r cs (final_absorbs s id r (c ∷ []) h f) f)

outcomes_after :
    (s : Store) (id : String) (c : Call) (cs : List Call)
    → records id s c ≡ true
    → outcomes id (apply s c) cs ≡ 0
unfolding apply
outcomes_after s id (finish_call k claim_id status at) cs h =
    let same : k ≡ id = ground (arith, eq_iff k id) in
    let (r, e, f) = finish-final s k claim_id status at (ground arith) in
    outcomes_final (finish_reminder s k claim_id status at).0 id r cs (rw (← same) e) f
outcomes_after s id c cs h = cc

-- Whatever the deliveries do and in whatever order, from any store: an outcome (sent or skipped) is
-- recorded for one reminder once at most.
pub outcomes-le-one : (s : Store) (id : String) (cs : List Call) → outcomes id s cs ≤ 1
unfolding outcomes
outcomes-le-one s id [] = omega arith
outcomes-le-one s id (c ∷ cs) = elim (Bool-cases (records id s c)) [
  | inl e ↦ rw (e, outcomes_after s id c cs e) (omega arith)
  | inr e ↦ rw e (outcomes-le-one (apply s c) id cs)
]
