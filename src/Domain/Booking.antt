-- ===== src/Domain/Booking.antt =====
-- internal/domain/booking: appointments, the drafts a customer confirms, and the request that is sent.
pub mod Confirm
use omnichannel_booking_assi.Prelude.{
  ℕ, String, Bool, true, false, not, ◌&&◌, Option, List, [], ◌∷◌, is_empty, ◌==◌, if◌then◌else◌,
}
use omnichannel_booking_assi.Prelude.Int.{ℤ, pos, ltb_ℤ}
use omnichannel_booking_assi.Prelude.Time.{Time, Duration, is_zero, after, sub, add, hour}
use omnichannel_booking_assi.Domain.Errors.{Error, rejected, wrapped, switch}

-- `other` is any text that is none of the constants, the zero value "" included.
pub data Status : Type 0 where
  confirmed cancelled : Status
  other : String → Status

pub record Slot : Type 0 where
  pub start : Time
  pub duration : Duration
  pub staff_id : String

-- `Slot.End`
unfoldable pub end : Slot → Time
end s = add s.start s.duration

pub record Booking : Type 0 where
  pub id : String
  pub external_id : String
  pub management_token : String
  pub customer_id : String
  pub service_ids : List String
  pub staff_id : String
  pub customer_name : String
  pub service_names : List String
  pub staff_name : String
  pub starts_at : Time
  pub duration : Duration
  pub status : Status
  pub attended : Bool
  pub no_show : Bool
  pub treatment_duration : Duration
  pub created_at : Time

abbrev pub is_confirmed : Status → Bool
is_confirmed confirmed = true
is_confirmed _ = false

-- `Booking.EndsAt`
unfoldable pub ends_at : Booking → Time
ends_at b = add b.starts_at b.duration

unfoldable pub calendar_duration : Booking → Duration
calendar_duration b =
    if ltb_ℤ (pos 0) b.treatment_duration && not (ltb_ℤ b.duration b.treatment_duration)
    then b.treatment_duration
    else b.duration

pub record Request : Type 0 where
  pub idempotency_key : String
  pub customer_id : String
  pub customer_name : String
  pub phone : String
  pub email : String
  pub service_ids : List String
  pub staff_id : String
  pub starts_at : Time
  pub duration : Duration
  pub comment : String

pub record Selection : Type 0 where
  pub service_ids : List String
  pub staff_id : String
  pub starts_at : Time
  pub duration : Duration

-- `Request.Selection`
unfoldable pub request_selection : Request → Selection
request_selection r = record {
  service_ids = r.service_ids;
  staff_id = r.staff_id;
  starts_at = r.starts_at;
  duration = r.duration;
}

-- `len(ids) == 0`
abbrev pub no_items : List String → Bool
no_items [] = true
no_items (_ ∷ _) = false

-- `Request.Validate`
unfoldable pub validate_request : Request → Time → Option Error
validate_request r now = switch (
    (is_empty r.idempotency_key, wrapped "idempotency key is empty" rejected)
    ∷ (is_empty r.customer_id, wrapped "customer is empty" rejected)
    ∷ (is_empty r.phone, wrapped "phone number is empty" rejected)
    ∷ (no_items r.service_ids, wrapped "no service chosen" rejected)
    ∷ (is_empty r.staff_id, wrapped "no staff member chosen" rejected)
    ∷ (is_zero r.starts_at, wrapped "no start time chosen" rejected)
    ∷ (not (ltb_ℤ (pos 0) r.duration), wrapped "appointment duration is not positive" rejected)
    ∷ (not (after r.starts_at now), wrapped "start time is not in the future" rejected)
    ∷ [])

abbrev pub max_draft_age : ℕ
max_draft_age = hour

pub record Draft : Type 0 where
  pub idempotency_key : String
  pub service_ids : List String
  pub service_names : List String
  pub price_label : String
  pub staff_id : String
  pub staff_name : String
  pub starts_at : Time
  pub duration : Duration
  pub phone : String
  pub customer_name : String
  pub awaiting_phone_verification : Bool
  pub prepared_at : Time
  pub prepared_from_message_id : String

unfoldable pub expired : Draft → Time → Bool
expired d now = ltb_ℤ (pos max_draft_age) (sub now d.prepared_at)

-- `Draft.EndsAt`
unfoldable pub draft_ends_at : Draft → Time
draft_ends_at d = add d.starts_at d.duration

-- `Draft.Validate`
unfoldable pub validate_draft : Draft → Time → Option Error
unfolding expired
validate_draft d now = switch (
    (is_empty d.idempotency_key, wrapped "the draft has no idempotency key" rejected)
    ∷ (no_items d.service_ids, wrapped "the draft names no service" rejected)
    ∷ (is_empty d.staff_id, wrapped "the draft names no specialist" rejected)
    ∷ (is_empty d.phone, wrapped "the draft has no phone number" rejected)
    ∷ (is_zero d.starts_at, wrapped "the draft has no start time" rejected)
    ∷ (not (ltb_ℤ (pos 0) d.duration), wrapped "the draft has no appointment duration" rejected)
    ∷ (
      is_empty d.prepared_from_message_id,
      wrapped "the draft is not tied to a customer message" rejected,
    )
    ∷ (expired d now, wrapped "the draft was prepared more than 1h0m0s ago" rejected)
    ∷ (not (after d.starts_at now), wrapped "the appointment time has passed" rejected)
    ∷ [])

unfoldable pub to_request : Draft → String → Request
to_request d customer_id = record {
  idempotency_key = d.idempotency_key;
  customer_id = customer_id;
  customer_name = d.customer_name;
  phone = d.phone;
  email = "";
  service_ids = d.service_ids;
  staff_id = d.staff_id;
  starts_at = d.starts_at;
  duration = d.duration;
  comment = "";
}

-- `Draft.Selection`
unfoldable pub draft_selection : Draft → Selection
draft_selection d = record {
  service_ids = d.service_ids;
  staff_id = d.staff_id;
  starts_at = d.starts_at;
  duration = d.duration;
}

pub data ChangeKind : Type 0 where
  cancel reschedule : ChangeKind
  other_kind : String → ChangeKind

pub record ChangeDraft : Type 0 where
  pub kind : ChangeKind
  pub reference : String
  pub new_start : Time
  pub prepared_at : Time
  pub prepared_from_message_id : String

abbrev pub same_kind : ChangeKind → ChangeKind → Bool
same_kind cancel cancel = true
same_kind reschedule reschedule = true
same_kind (other_kind s) (other_kind t) = s == t
same_kind _ _ = false

abbrev pub is_reschedule : ChangeKind → Bool
is_reschedule reschedule = true
is_reschedule _ = false

abbrev pub max_change_draft_age : ℕ
max_change_draft_age = hour

-- `ChangeDraft.Validate`
unfoldable pub validate_change : ChangeDraft → ChangeKind → Time → Option Error
validate_change d expected now = switch (
    (not (same_kind d.kind expected), wrapped "prepared change is of another kind" rejected)
    ∷ (is_empty d.reference, wrapped "prepared change has no appointment reference" rejected)
    ∷ (is_zero d.prepared_at, wrapped "prepared change has no preparation time" rejected)
    ∷ (
      is_empty d.prepared_from_message_id,
      wrapped "prepared change is not tied to a customer message" rejected,
    )
    ∷ (
      ltb_ℤ (pos max_change_draft_age) (sub now d.prepared_at),
      wrapped "prepared change is more than 1h0m0s old" rejected,
    )
    ∷ (
      is_reschedule expected && not (after d.new_start now),
      wrapped "new appointment time has passed" rejected,
    )
    ∷ [])
