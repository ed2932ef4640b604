-- ===== src/Memory/Bookings/Upsert.antt =====
-- What `SaveBooking` and `FindBooking` do to a customer's appointments.
use omnichannel_booking_assi.Prelude.{
  ◌≡◌, refl, ap, ◌∙◌, inl, inr, String, none, some, List, [], ◌∷◌, arith, eq_iff, eq_refl, ◌==◌,
  Bool-cases, Option, str_cases, eq_refl, ◌&&◌, Option-cases, if◌then◌else◌,
}
use omnichannel_booking_assi.Prelude.Dict.{
  Dict, insert, values, lookup-insert_self, lookup-insert_ne,
}
use omnichannel_booking_assi.Domain.Errors.{ok}
use omnichannel_booking_assi.Domain.Booking.{Booking}
use omnichannel_booking_assi.Memory.Store.{Store, get_list}
use omnichannel_booking_assi.Memory.Bookings.{
  upsert, own_bookings, save_booking, find_in, find_among, find_booking,
}

-- No two bookings of a customer have one reference.
abbrev pub IsDistinct : List Booking → Type 0
IsDistinct [] = Unit
IsDistinct (b ∷ bs) = (find_in bs b.external_id ≡ none) × IsDistinct bs

find_in-upsert :
    (bs : List Booking) (b : Booking) (reference : String)
    → find_in (upsert bs b) reference
      ≡ (if b.external_id == reference then some b else find_in bs reference)
unfolding find_in upsert
find_in-upsert [] b reference = refl
find_in-upsert (x ∷ xs) b reference = ground (
  arith,
  eq_iff x.external_id b.external_id,
  eq_iff x.external_id reference,
  eq_iff b.external_id reference,
  find_in-upsert xs b reference,
)

upsert-IsDistinct : (bs : List Booking) (b : Booking) → IsDistinct bs → IsDistinct (upsert bs b)
unfolding upsert find_in
upsert-IsDistinct [] b h = (refl, tt)
upsert-IsDistinct (x ∷ xs) b h = elim (Bool-cases (x.external_id == b.external_id)) [
  | inl e ↦ rw e (rw (← (eq_iff x.external_id b.external_id).0 e) h.0, h.1)
  | inr e ↦ rw e (
    ground (
      arith,
      find_in-upsert xs b x.external_id,
      eq_iff x.external_id b.external_id,
      eq_iff b.external_id x.external_id,
    ),
    upsert-IsDistinct xs b h.1,
  )
]

-- Saving a booking replaces the customer's booking of that reference, or adds it if there is none:
-- the reference then finds the saved one, every other reference of the customer what it found
-- before, and other customers keep theirs.
pub save_booking_lem :
    (s : Store) (b : Booking) (customer_id reference : String)
    → find_in (own_bookings (save_booking s b) customer_id) reference ≡ (
        if (b.customer_id == customer_id) && (b.external_id == reference)
        then some b
        else find_in (own_bookings s customer_id) reference)
unfolding save_booking
save_booking_lem s b customer_id reference =
    let l = upsert (own_bookings s b.customer_id) b in
    elim (str_cases b.customer_id customer_id) [
      | inl same ↦ rw (← same) (
          ap (λ (m : Option (List Booking)). find_in (get_list m) reference)
            (lookup-insert_self b.customer_id l s.bookings)
          ∙ find_in-upsert (own_bookings s b.customer_id) b reference
          ∙ ground (arith, eq_refl b.customer_id))
      | inr ne ↦
          ap (λ (m : Option (List Booking)). find_in (get_list m) reference)
            (lookup-insert_ne b.customer_id customer_id l s.bookings ne)
          ∙ ground (arith, eq_iff b.customer_id customer_id)
    ]

-- A customer's references stay unique when a booking is saved.
pub save_booking-IsDistinct :
    (s : Store) (b : Booking) (customer_id : String)
    → IsDistinct (own_bookings s customer_id)
    → IsDistinct (own_bookings (save_booking s b) customer_id)
unfolding save_booking
save_booking-IsDistinct s b customer_id h =
    let l = upsert (own_bookings s b.customer_id) b in
    elim (str_cases b.customer_id customer_id) [
      | inl same ↦
          let own : IsDistinct (own_bookings s b.customer_id) = rw same h in
          rw (← same, lookup-insert_self) (upsert-IsDistinct (own_bookings s b.customer_id) b own)
      | inr ne ↦ rw (lookup-insert_ne b.customer_id customer_id l s.bookings ne) h
    ]

find_in_reference :
    (bs : List Booking) (reference : String) (b : Booking)
    → find_in bs reference ≡ some b
    → b.external_id ≡ reference
unfolding find_in
find_in_reference [] reference b h = cc
find_in_reference (x ∷ xs) reference b h =
    ground (arith, eq_iff x.external_id reference, find_in_reference xs reference b)

find_among-insert :
    (m : Dict (List Booking)) (k : String) (l : List Booking) (reference : String) (b : Booking)
    → find_in l reference ≡ some b
    → (x : Booking) × (find_among (values (insert k l m)) reference ≡ ok x)
      × (x.external_id ≡ reference)
unfolding find_among values insert
find_among-insert [] k l reference b h = (b, rw (h, find_among), find_in_reference l reference b h)
find_among-insert ((j, w) ∷ m) k l reference b h = elim (Bool-cases (j == k)) [
  | inl e ↦ rw e (b, rw (h, find_among), find_in_reference l reference b h)
  | inr e ↦ rw e (elim (Option-cases (find_in w reference)) [
    | inl absent ↦ rw (absent, find_among) (find_among-insert m k l reference b h)
    | inr (x, found) ↦ (x, rw (found, find_among), find_in_reference w reference x found)
  ])
]

-- A saved booking's reference is found among all customers: the result has that reference.
pub find_booking-save_booking :
    (s : Store) (b : Booking)
    → (x : Booking) × (find_booking (save_booking s b) b.external_id ≡ ok x)
      × (x.external_id ≡ b.external_id)
unfolding find_booking save_booking
find_booking-save_booking s b =
    find_among-insert s.bookings b.customer_id (upsert (own_bookings s b.customer_id) b)
      b.external_id b (find_in-upsert (own_bookings s b.customer_id) b b.external_id ∙ rw eq_refl)
