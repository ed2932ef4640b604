-- ===== src/Memory/Bookings.antt =====
-- internal/adapters/persistence/memory/store.go: `SaveBooking`, `FindBooking`, `ListBookings`.
pub mod Upsert
pub mod Sorted
use omnichannel_booking_assi.Prelude.{
  String, Bool, Option, none, some, List, [], ◌∷◌, ◌++◌, ltb, ◌==◌, if◌then◌else◌,
}
use omnichannel_booking_assi.Prelude.Dict.{lookup, insert, values}
use omnichannel_booking_assi.Domain.Errors.{Error, Result, ok, err, not_found, Entity}
use omnichannel_booking_assi.Domain.Booking.{Booking}
use omnichannel_booking_assi.Memory.Store.{Store, get_list}

-- The loop of `SaveBooking`: the first booking of that reference is replaced, else `b` is appended.
unfoldable pub upsert : List Booking → Booking → List Booking
upsert [] b = b ∷ []
upsert (stored ∷ rest) b =
    if stored.external_id == b.external_id then b ∷ rest else stored ∷ upsert rest b

unfoldable pub own_bookings : Store → String → List Booking
own_bookings s customer_id = get_list (lookup customer_id s.bookings)

unfoldable pub save_booking : Store → Booking → Store
unfolding upsert own_bookings
save_booking s b = record s {
  bookings = insert b.customer_id (upsert (own_bookings s b.customer_id) b) s.bookings;
}

-- The inner loop of `FindBooking`.
unfoldable pub find_in : List Booking → String → Option Booking
find_in [] reference = none
find_in (b ∷ rest) reference = if b.external_id == reference then some b else find_in rest reference

-- The outer one, over the customers.
unfoldable pub find_among : List (List Booking) → String → Result Booking
find_among [] reference = err (not_found Entity.booking)
find_among (bookings ∷ rest) reference = elim (find_in bookings reference) [
  | some b ↦ ok b
  | none ↦ find_among rest reference
]

unfoldable pub find_booking : Store → String → Result Booking
find_booking s reference = find_among (values s.bookings) reference

-- `slices.SortFunc` by `StartsAt`. Go leaves the order of equal starts open; here it is that of the
-- input.
unfoldable pub insert_sorted : Booking → List Booking → List Booking
insert_sorted b [] = b ∷ []
insert_sorted b (x ∷ xs) =
    if ltb x.starts_at b.starts_at then x ∷ insert_sorted b xs else b ∷ x ∷ xs

unfoldable pub sort_bookings : List Booking → List Booking
sort_bookings [] = []
sort_bookings (b ∷ bs) = insert_sorted b (sort_bookings bs)

-- The loop over the aliases.
unfoldable pub aliased_bookings : Store → List String → List Booking
aliased_bookings s [] = []
aliased_bookings s (alias ∷ rest) = own_bookings s alias ++ aliased_bookings s rest

unfoldable pub list_bookings : Store → String → List Booking
list_bookings s customer_id = sort_bookings (
    own_bookings s customer_id
    ++ aliased_bookings s (get_list (lookup customer_id s.profile_aliases)))
