-- ===== src/Memory/Reminders/Lease.antt =====
-- A stored reminder is left alone by the calls that have no right to it: a finished one by all, a
-- leased one by those of other deliveries.
use omnichannel_booking_assi.Prelude.{
  ◌<◌, ◌≡◌, ◌≢◌, ◌⊎◌, inl, inr, String, true, false, none, some, List, [], ◌∷◌, arith, eq_iff,
  eq_refl, str_cases,
}
use omnichannel_booking_assi.Prelude.Dict.{lookup-insert, lookup-insert_ne}
use omnichannel_booking_assi.Prelude.Time.{Time}
use omnichannel_booking_assi.Domain.Errors.{ok}
use omnichannel_booking_assi.Domain.Reminder.{Reminder, Status, delivering, is_final}
use omnichannel_booking_assi.Memory.Store.{Store}
use omnichannel_booking_assi.Memory.Reminders.{
  ensure_reminder, claim_reminder, finish_reminder, release_reminder,
}
use omnichannel_booking_assi.Memory.Reminders.Steps.{
  Call, ensure_call, claim_call, finish_call, release_call, apply, run, at_id,
}

-- A call that has no right to the reminder `r` under the id: the reminder is finished, or the call is
-- a claim before the lease expires, or one with another claim id.
abbrev pub IsForeign : String → Reminder → Call → Type 0
IsForeign id r (ensure_call c) = Unit
IsForeign id r (claim_call k claim_id at until) =
    k ≡ id → (is_final r.status ≡ true) ⊎ ((r.status ≡ delivering) × (at < r.claim_expires))
IsForeign id r (finish_call k claim_id status at) =
    k ≡ id → (is_final r.status ≡ true) ⊎ (claim_id ≢ r.claim_id)
IsForeign id r (release_call k claim_id) =
    k ≡ id → (is_final r.status ≡ true) ⊎ (claim_id ≢ r.claim_id)

abbrev pub AllForeign : String → Reminder → List Call → Type 0
AllForeign id r [] = Unit
AllForeign id r (c ∷ cs) = IsForeign id r c × AllForeign id r cs

module _ (id : String) (r : Reminder) where
  pub ensure_kept :
      (s : Store) (c : Reminder) → at_id s id ≡ some r → at_id (ensure_reminder s c).0 id ≡ some r
  unfolding ensure_reminder
  ensure_kept s c h = ground (arith, eq_iff c.id id, lookup-insert c.id id c s.reminders)

  claim_kept :
      (s : Store) (k claim_id : String) (at until : Time)
      → (k ≡ id → (is_final r.status ≡ true) ⊎ ((r.status ≡ delivering) × (at < r.claim_expires)))
      → at_id s id ≡ some r
      → at_id (claim_reminder s k claim_id at until).0 id ≡ some r
  unfolding claim_reminder
  claim_kept s k claim_id at until f h = elim (str_cases k id) [
    | inl same ↦ ground (arith, f same)
    | inr ne ↦ grind (arith, lookup-insert_ne)
  ]

  finish_kept :
      (s : Store) (k claim_id : String) (status : Status) (at : Time)
      → (k ≡ id → (is_final r.status ≡ true) ⊎ (claim_id ≢ r.claim_id))
      → at_id s id ≡ some r
      → at_id (finish_reminder s k claim_id status at).0 id ≡ some r
  unfolding finish_reminder
  finish_kept s k claim_id status at f h = elim (str_cases k id) [
    | inl same ↦ ground (arith, f same, eq_iff r.claim_id claim_id)
    | inr ne ↦ grind (arith, lookup-insert_ne)
  ]

  release_kept :
      (s : Store) (k claim_id : String)
      → (k ≡ id → (is_final r.status ≡ true) ⊎ (claim_id ≢ r.claim_id))
      → at_id s id ≡ some r
      → at_id (release_reminder s k claim_id).0 id ≡ some r
  unfolding release_reminder
  release_kept s k claim_id f h = elim (str_cases k id) [
    | inl same ↦ ground (arith, f same, eq_iff r.claim_id claim_id)
    | inr ne ↦ grind (arith, lookup-insert_ne)
  ]

  apply_kept :
      (s : Store) (c : Call)
      → IsForeign id r c
      → at_id s id ≡ some r
      → at_id (apply s c) id ≡ some r
  unfolding apply
  apply_kept s (ensure_call c) f h = ensure_kept s c h
  apply_kept s (claim_call k claim_id at until) f h = claim_kept s k claim_id at until f h
  apply_kept s (finish_call k claim_id status at) f h = finish_kept s k claim_id status at f h
  apply_kept s (release_call k claim_id) f h = release_kept s k claim_id f h

  pub run_kept :
      (s : Store) (cs : List Call)
      → AllForeign id r cs
      → at_id s id ≡ some r
      → at_id (run s cs) id ≡ some r
  unfolding run
  run_kept s [] f h = h
  run_kept s (c ∷ cs) f h = run_kept (apply s c) cs f.1 (apply_kept s c f.0 h)

  final-IsForeign : (c : Call) → is_final r.status ≡ true → IsForeign id r c
  final-IsForeign (ensure_call c) h = tt
  final-IsForeign (claim_call k claim_id at until) h = λ _. inl h
  final-IsForeign (finish_call k claim_id status at) h = λ _. inl h
  final-IsForeign (release_call k claim_id) h = λ _. inl h

  final-AllForeign : (cs : List Call) → is_final r.status ≡ true → AllForeign id r cs
  final-AllForeign [] h = tt
  final-AllForeign (c ∷ cs) h = (final-IsForeign c h, final-AllForeign cs h)

-- A reminder that is sent or skipped stays as it is under every sequence of calls.
pub final_absorbs :
    (s : Store) (id : String) (r : Reminder) (cs : List Call)
    → at_id s id ≡ some r
    → is_final r.status ≡ true
    → at_id (run s cs) id ≡ some r
final_absorbs s id r cs h f = run_kept id r s cs (final-AllForeign id r cs f) h

-- The reminder that a granted claim leaves.
abbrev pub leased : Reminder → String → Time → Reminder
leased r claim_id until = record r {
  status = delivering;
  claim_id = claim_id;
  claim_expires = until;
}

claim_stores :
    (s : Store) (id mine : String) (at until : Time) (r : Reminder)
    → at_id s id ≡ some r
    → (claim_reminder s id mine at until).1 ≡ ok (leased r mine until, true)
    → at_id (claim_reminder s id mine at until).0 id ≡ some (leased r mine until)
unfolding claim_reminder
claim_stores s id mine at until r h g =
    ground (arith, lookup-insert id id (leased r mine until) s.reminders, eq_refl id)

-- While a delivery holds its lease on a reminder, and after any calls of deliveries with other
-- claim ids, whose claims come before it expires: a further claim before it expires is not granted
-- and changes nothing, and the holder can still record the outcome.
pub lease_exclusive :
    (s : Store) (id mine : String) (at until : Time) (r : Reminder) (cs : List Call)
    (theirs : String) (at' until' : Time) (status : Status) (done : Time)
    → at_id s id ≡ some r
    → (claim_reminder s id mine at until).1 ≡ ok (leased r mine until, true)
    → AllForeign id (leased r mine until) cs
    → at' < until
    → is_final status ≡ true
    → let t = run (claim_reminder s id mine at until).0 cs in
      (claim_reminder t id theirs at' until' ≡ (t, ok (leased r mine until, false)))
      × ((finish_reminder t id mine status done).1 ≡ none)
unfolding claim_reminder finish_reminder
lease_exclusive s id mine at until r cs theirs at' until' status done h g f b e =
    let t = run (claim_reminder s id mine at until).0 cs in
    let k =
      run_kept id (leased r mine until) (claim_reminder s id mine at until).0 cs f
        (claim_stores s id mine at until r h g) in
    (ground (arith, k), ground (arith, k, eq_refl mine))
