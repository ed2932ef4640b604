-- ===== src/Memory/Reminders/Steps.antt =====
-- The calls of the reminder methods do what the specification says.
use omnichannel_booking_assi.Prelude.{
  ◌≡◌, sym, ap, subst, ◌∙◌, ◌⊎◌, refl, inl, inr, String, not, ◌||◌, ◌==◌, Option, some, List, [],
  ◌∷◌, arith, str_cases, Bool-cases, Option-cases,
}
use omnichannel_booking_assi.Prelude.Dict.{lookup, insert, lookup-insert_self, lookup-insert_ne}
use omnichannel_booking_assi.Prelude.Time.{Time}
use omnichannel_booking_assi.Domain.Reminder.{
  Reminder, Status, validate, is_final, is_delivering, terminal,
}
use omnichannel_booking_assi.Memory.Store.{Store}
use omnichannel_booking_assi.Memory.Reminders.{
  ensure_reminder, claim_reminder, finish_reminder, release_reminder, is_leased,
}
pub use omnichannel_booking_assi.Memory.Reminders.Contract.{
  Call, ensure_call, claim_call, finish_call, release_call,
}
use omnichannel_booking_assi.Memory.Reminders.Contract.{
  IsFree, IsHeld, id_of, Writes, Follows, IsFinal-iff, IsFree-iff, IsHeld-iff, IsComplete-iff,
}

unfoldable pub apply : Store → Call → Store
unfolding ensure_reminder claim_reminder finish_reminder release_reminder
apply s (ensure_call r) = (ensure_reminder s r).0
apply s (claim_call id claim_id at lease_until) = (claim_reminder s id claim_id at lease_until).0
apply s (finish_call id claim_id status at) = (finish_reminder s id claim_id status at).0
apply s (release_call id claim_id) = (release_reminder s id claim_id).0

unfoldable pub run : Store → List Call → Store
run s [] = s
run s (c ∷ cs) = run (apply s c) cs

-- What is stored under an id.
abbrev pub at_id : Store → String → Option Reminder
at_id s id = lookup id s.reminders

-- A call writes at its id what the specification says, or the store stays.
abbrev Effect : Call → Store → Store → Type 0
Effect c s s' =
    ((r : Reminder) × Writes c (at_id s (id_of c)) r
      × (s' ≡ record s { reminders = insert (id_of c) r s.reminders }))
    ⊎ ((r : Reminder) → ¬ Writes c (at_id s (id_of c)) r) × (s' ≡ s)

Effect-Follows :
    (c : Call) (s s' : Store) (k : String) → Effect c s s' → Follows c k (at_id s k) (at_id s' k)
Effect-Follows c s s' k (inr (idle, same)) = elim (str_cases (id_of c) k) [
  | inl here ↦ inr (
    inr (subst (λ j. (r : Reminder) → ¬ Writes c (at_id s j) r) here idle),
    ap (λ t. at_id t k) same,
  )
  | inr apart ↦ inr (inl (λ e. apart (sym e)), ap (λ t. at_id t k) same)
]
Effect-Follows c s s' k (inl (r, may, written)) = elim (str_cases (id_of c) k) [
  | inl here ↦ inl (
    sym here,
    (
      r,
      subst (λ j. Writes c (at_id s j) r) here may,
      ap (λ t. at_id t k) written
          ∙ subst (λ j. lookup j (insert (id_of c) r s.reminders) ≡ some r) here
              (lookup-insert_self (id_of c) r s.reminders),
    ),
  )
  | inr apart ↦ inr (
    inl (λ e. apart (sym e)),
    ap (λ t. at_id t k) written ∙ lookup-insert_ne (id_of c) k r s.reminders apart,
  )
]

-- The reminder that is stored is the one that is read.
same_reminder : {o : Option Reminder} {r x : Reminder} → o ≡ some r → o ≡ some x → x ≡ r
same_reminder h g = ground (arith, h, g)

ensure-Effect : (s : Store) (r : Reminder) → Effect (ensure_call r) s (ensure_reminder s r).0
unfolding ensure_reminder
ensure-Effect s r = elim (Option-cases (validate r)) [
  | inr (e, bad) ↦ inr (
    λ x (complete, absent, same). ground (arith, (IsComplete-iff r).1 complete, bad),
    rw (bad, ensure_reminder) refl,
  )
  | inl valid ↦ elim (Option-cases (lookup r.id s.reminders)) [
    | inr (x, h) ↦ inr (
      λ y (complete, absent, same). ground (arith, absent, h),
      rw (valid, h, ensure_reminder) refl,
    )
    | inl absent ↦
        inl
          (r, ((IsComplete-iff r).0 valid, absent, refl), rw (valid, absent, ensure_reminder) refl)
  ]
]

claim-Effect :
    (s : Store) (id claim_id : String) (at lease_until : Time)
    → Effect
        (claim_call id claim_id at lease_until)
        s
        (claim_reminder s id claim_id at lease_until).0
unfolding claim_reminder
claim-Effect s id claim_id at lease_until = elim (Option-cases (lookup id s.reminders)) [
  | inl absent ↦
      inr (λ y (r, h, free, same). ground (arith, absent, h), rw (absent, claim_reminder) refl)
  | inr (r, h) ↦ elim (Bool-cases (terminal r || is_leased r at)) [
    | inl held ↦ inr (
      λ y (x, g, free, e).
          let unheld = (IsFree-iff r at).1 (subst (λ z. IsFree z at) (same_reminder h g) free) in
          ground (arith, held, unheld),
      rw (h, held, claim_reminder) refl,
    )
    | inr free ↦ inl (_, (r, h, (IsFree-iff r at).0 free, refl), rw (h, free, claim_reminder) refl)
  ]
]

finish-Effect :
    (s : Store) (id claim_id : String) (status : Status) (at : Time)
    → Effect (finish_call id claim_id status at) s (finish_reminder s id claim_id status at).0
unfolding finish_reminder
finish-Effect s id claim_id status at = elim (Bool-cases (is_final status)) [
  | inr unfinal ↦ inr (
    λ y (r, h, held, final, e). ground (arith, (IsFinal-iff status).1 final, unfinal),
    rw (unfinal, finish_reminder) refl,
  )
  | inl final ↦ elim (Option-cases (lookup id s.reminders)) [
    | inl absent ↦ inr (
      λ y (r, h, held, fin, same). ground (arith, absent, h),
      rw (final, absent, finish_reminder) refl,
    )
    | inr (r, h) ↦
        elim (Bool-cases (not (r.claim_id == claim_id) || not (is_delivering r.status))) [
          | inl foreign ↦ inr (
            λ y (x, g, held, fin, e).
                let own =
                  (IsHeld-iff r claim_id).1
                    (subst (λ z. IsHeld z claim_id) (same_reminder h g) held) in
                ground (arith, foreign, own),
            rw (final, h, foreign, finish_reminder) refl,
          )
          | inr own ↦ inl (
            _,
            (r, h, (IsHeld-iff r claim_id).0 own, (IsFinal-iff status).0 final, refl),
            rw (final, h, own, finish_reminder) refl,
          )
        ]
  ]
]

release-Effect :
    (s : Store) (id claim_id : String)
    → Effect (release_call id claim_id) s (release_reminder s id claim_id).0
unfolding release_reminder
release-Effect s id claim_id = elim (Option-cases (lookup id s.reminders)) [
  | inl absent ↦
      inr (λ y (r, h, held, same). ground (arith, absent, h), rw (absent, release_reminder) refl)
  | inr (r, h) ↦ elim (Bool-cases (not (r.claim_id == claim_id) || not (is_delivering r.status))) [
    | inl foreign ↦ inr (
      λ y (x, g, held, e).
          let own =
            (IsHeld-iff r claim_id).1 (subst (λ z. IsHeld z claim_id) (same_reminder h g) held) in
          ground (arith, foreign, own),
      rw (h, foreign, release_reminder) refl,
    )
    | inr own ↦
        inl (_, (r, h, (IsHeld-iff r claim_id).0 own, refl), rw (h, own, release_reminder) refl)
  ]
]

apply-Effect : (s : Store) (c : Call) → Effect c s (apply s c)
unfolding apply
apply-Effect s (ensure_call r) = ensure-Effect s r
apply-Effect s (claim_call id claim_id at until) = claim-Effect s id claim_id at until
apply-Effect s (finish_call id claim_id status at) = finish-Effect s id claim_id status at
apply-Effect s (release_call id claim_id) = release-Effect s id claim_id

-- What the store holds after a call is what the specification says. A new reminder is stored
-- exactly if it is complete and none is stored under its id. A claim writes itself and its end, and
-- the status of a delivery, exactly if a reminder is stored, has no outcome, and no delivery has a
-- lease on it at that time. An outcome is written, with its time, exactly if it is sent or skipped
-- and the reminder is being delivered under the same claim; the claim is gone then. A release makes
-- a reminder scheduled again, with no claim, exactly if it is being delivered under the same claim.
-- Nothing else changes in a reminder, and where a call may not write, and under every other id,
-- what is stored stays.
pub apply-Follows :
    (s : Store) (c : Call) (k : String) → Follows c k (at_id s k) (at_id (apply s c) k)
apply-Follows s c k = Effect-Follows c s (apply s c) k (apply-Effect s c)
