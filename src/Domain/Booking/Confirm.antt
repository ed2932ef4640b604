-- ===== src/Domain/Booking/Confirm.antt =====
-- A draft that passed its validation, confirmed, and the length of an appointment in a calendar.
use omnichannel_booking_assi.Prelude.{
  ◌≡◌, ◌≢◌, refl, ◌↔◌, String, false, none, arith, is_empty, is_empty→ne, ne→is_empty,
}
use omnichannel_booking_assi.Prelude.Int.{pos, ltb_ℤ}
use omnichannel_booking_assi.Prelude.Time.{Time}
use omnichannel_booking_assi.Domain.Booking.{
  Draft, validate_draft, validate_request, to_request, Booking, calendar_duration,
}

is_empty_iff : (s : String) → (is_empty s ≡ false) ↔ (s ≢ "")
is_empty_iff s = (is_empty→ne s, ne→is_empty s)

-- A draft that passes its validation, confirmed by a customer who has an id, yields a request that
-- passes the request's own validation at the same time, and that carries the draft's key, services,
-- specialist, start and phone number.
pub validate_request-to_request :
    (d : Draft) (customer_id : String) (now : Time)
    → validate_draft d now ≡ none
    → customer_id ≢ ""
    → let r = to_request d customer_id in
      (validate_request r now ≡ none)
      × (r.idempotency_key ≡ d.idempotency_key)
      × (r.service_ids ≡ d.service_ids)
      × (r.staff_id ≡ d.staff_id)
      × (r.starts_at ≡ d.starts_at)
      × (r.phone ≡ d.phone)
unfolding validate_draft validate_request to_request
validate_request-to_request d customer_id now h c =
    (ground (arith, is_empty_iff customer_id), refl, refl, refl, refl, refl)

-- The time shown in a calendar never runs past the appointment, and is the whole of it unless a positive treatment time is set.
pub calendar_duration_lem :
    (b : Booking)
    → (ltb_ℤ b.duration (calendar_duration b) ≡ false)
      × ((ltb_ℤ (pos 0) b.treatment_duration ≡ false) → calendar_duration b ≡ b.duration)
unfolding calendar_duration
calendar_duration_lem b = (ground arith, λ h. ground arith)
