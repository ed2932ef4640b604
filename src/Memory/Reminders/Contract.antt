-- ===== src/Memory/Reminders/Contract.antt =====
-- The calls of the reminder methods, and what each of them may write.
use omnichannel_booking_assi.Prelude.{
  ◌≡◌, ◌≢◌, ◌↔◌, ◌⊎◌, ◌<◌, ◌≤◌, refl, inl, inr, is_empty, is_empty→ne, ne→is_empty, eq_iff, false,
  String, true, false, not, ◌||◌, ◌==◌, Option, none, some, arith,
}
use omnichannel_booking_assi.Prelude.Time.{Time}
use omnichannel_booking_assi.Domain.Reminder.{
  Reminder, Status, scheduled, delivering, sent, skipped, other, validate, is_final, is_delivering,
  is_scheduled, terminal,
}
use omnichannel_booking_assi.Memory.Reminders.{is_leased}

pub data Call : Type 0 where
  ensure_call : Reminder → Call
  claim_call : String → String → Time → Time → Call
  finish_call : String → String → Status → Time → Call
  release_call : String → String → Call

-- A reminder that may be planned.
pub record IsComplete (r : Reminder) : Type 0 where
  pub id : r.id ≢ ""
  pub booking_external_id : r.booking_external_id ≢ ""
  pub customer_id : r.customer_id ≢ ""
  pub conversation_id : r.conversation_id ≢ ""
  pub provider : r.provider ≢ ""
  pub external_thread_id : r.external_thread_id ≢ ""
  pub expected_starts_at : 0 < r.expected_starts_at
  pub due_at : 0 < r.due_at
  pub status : r.status ≡ scheduled
  pub created_at : 0 < r.created_at

abbrev pub IsFinal : Status → Type 0
IsFinal st = (st ≡ sent) ⊎ (st ≡ skipped)

-- The outcome is open, and no delivery has a lease at that time.
abbrev pub IsFree : Reminder → Time → Type 0
IsFree r at = ¬ IsFinal r.status × ((r.status ≢ delivering) ⊎ (r.claim_expires ≤ at))

-- A delivery with that claim has the reminder, its lease run out or not.
abbrev pub IsHeld : Reminder → String → Type 0
IsHeld r claim_id = (r.status ≡ delivering) × (r.claim_id ≡ claim_id)

-- The id whose reminder a call is about.
abbrev pub id_of : Call → String
id_of (ensure_call r) = r.id
id_of (claim_call id claim_id at lease_until) = id
id_of (finish_call id claim_id status at) = id
id_of (release_call id claim_id) = id

-- The specification: when a call may write, and what, where `o` is stored under its id.
abbrev pub Writes : Call → Option Reminder → Reminder → Type 0
Writes (ensure_call r) o r' = IsComplete r × (o ≡ none) × (r' ≡ r)
Writes (claim_call id claim_id at lease_until) o r' =
    (r : Reminder) × (o ≡ some r)
    × IsFree r at
    × (r' ≡ record r { status = delivering; claim_id = claim_id; claim_expires = lease_until })
Writes (finish_call id claim_id status at) o r' =
    (r : Reminder) × (o ≡ some r)
    × IsHeld r claim_id
    × IsFinal status
    × (r' ≡ record r { status = status; finished_at = at; claim_id = ""; claim_expires = 0 })
Writes (release_call id claim_id) o r' =
    (r : Reminder) × (o ≡ some r)
    × IsHeld r claim_id
    × (r' ≡ record r { status = scheduled; claim_id = ""; claim_expires = 0 })

-- What is stored under the key after a call that may write there, and after any other.
abbrev pub Follows : Call → String → Option Reminder → Option Reminder → Type 0
Follows c k o o' =
    (k ≡ id_of c) × ((r : Reminder) × Writes c o r × (o' ≡ some r))
    ⊎ ((k ≢ id_of c) ⊎ ((r : Reminder) → ¬ Writes c o r)) × (o' ≡ o)

pub IsFinal-iff : (st : Status) → (is_final st ≡ true) ↔ IsFinal st
IsFinal-iff sent = (λ h. inl refl, λ h. refl)
IsFinal-iff skipped = (λ h. inr refl, λ h. refl)
IsFinal-iff scheduled = ground arith
IsFinal-iff delivering = ground arith
IsFinal-iff (other x) = ground arith

delivering_iff : (st : Status) → (is_delivering st ≡ true) ↔ (st ≡ delivering)
delivering_iff delivering = (λ h. refl, λ h. refl)
delivering_iff scheduled = ground arith
delivering_iff sent = ground arith
delivering_iff skipped = ground arith
delivering_iff (other x) = ground arith

scheduled_iff : (st : Status) → (is_scheduled st ≡ true) ↔ (st ≡ scheduled)
scheduled_iff scheduled = (λ h. refl, λ h. refl)
scheduled_iff delivering = ground arith
scheduled_iff sent = ground arith
scheduled_iff skipped = ground arith
scheduled_iff (other x) = ground arith

pub IsFree-iff : (r : Reminder) (at : Time) → (terminal r || is_leased r at ≡ false) ↔ IsFree r at
unfolding terminal
IsFree-iff r at =
    let final = IsFinal-iff r.status in
    let busy = delivering_iff r.status in
    (λ h. ground (arith, final, busy, h), λ h. ground (arith, final, busy, h))

pub IsHeld-iff :
    (r : Reminder) (claim_id : String)
    → (not (r.claim_id == claim_id) || not (is_delivering r.status) ≡ false) ↔ IsHeld r claim_id
IsHeld-iff r claim_id =
    let busy = delivering_iff r.status in
    let own = eq_iff r.claim_id claim_id in
    (λ h. ground (arith, busy, own, h), λ h. ground (arith, busy, own, h))

given_iff : (s : String) → (is_empty s ≡ false) ↔ (s ≢ "")
given_iff s = (is_empty→ne s, ne→is_empty s)

pub IsComplete-iff : (r : Reminder) → (validate r ≡ none) ↔ IsComplete r
unfolding validate
IsComplete-iff r =
    let id = given_iff r.id in
    let booking = given_iff r.booking_external_id in
    let customer = given_iff r.customer_id in
    let conversation = given_iff r.conversation_id in
    let provider = given_iff r.provider in
    let thread = given_iff r.external_thread_id in
    let status = scheduled_iff r.status in
    (
      λ h. ground (arith, id, booking, customer, conversation, provider, thread, status, h),
      λ h. ground (arith, id, booking, customer, conversation, provider, thread, status, h),
    )
