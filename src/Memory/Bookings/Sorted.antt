-- ===== src/Memory/Bookings/Sorted.antt =====
-- What `ListBookings` returns.
use mathlib.Core.List.Perm
use mathlib.Core.List.{
  Perm, Mem, Mem-prop, flat_map, mem-append, mem-append_left, mem-append_right, mem-cons,
  mem-cons_self, mem-cons_of_mem, mem-cast, not-mem-nil,
}
use mathlib.Core.Logic.Or
use mathlib.Core.Logic.{∥∥₁_elim, ∥∥₁_map, ∥∥₁_prop}
use omnichannel_booking_assi.Prelude.{
  ◌≤◌, ◌≡◌, ◌↔◌, ◌⊎◌, refl, ap, subst, inl, inr, String, List, [], ◌∷◌, ◌++◌, All, arith, ltb,
  Bool-cases, ltb→le,
}
use omnichannel_booking_assi.Prelude.Dict.{lookup}
use omnichannel_booking_assi.Domain.Booking.{Booking}
use omnichannel_booking_assi.Memory.Store.{Store, get_list}
use omnichannel_booking_assi.Memory.Bookings.{
  own_bookings, insert_sorted, sort_bookings, aliased_bookings, list_bookings,
}

-- Soonest first.
abbrev pub IsSorted : List Booking → Type 0
IsSorted [] = Unit
IsSorted (b ∷ bs) = All (λ x. b.starts_at ≤ x.starts_at) bs × IsSorted bs

insert_sorted-perm : (b : Booking) (bs : List Booking) → Perm (insert_sorted b bs) (b ∷ bs)
unfolding insert_sorted
insert_sorted-perm b [] = Perm.refl (b ∷ [])
insert_sorted-perm b (x ∷ xs) = elim (Bool-cases (ltb x.starts_at b.starts_at)) [
  | inl e ↦ rw e (Perm.trans (Perm.cons x (insert_sorted-perm b xs)) (Perm.swap b x xs))
  | inr e ↦ rw e (Perm.refl (b ∷ x ∷ xs))
]

All-insert_sorted :
    (P : Booking → Type 0) (b : Booking) (bs : List Booking)
    → P b
    → All P bs
    → All P (insert_sorted b bs)
unfolding insert_sorted
All-insert_sorted P b [] h hs = (h, tt)
All-insert_sorted P b (x ∷ xs) h hs = elim (Bool-cases (ltb x.starts_at b.starts_at)) [
  | inl e ↦ rw e (hs.0, All-insert_sorted P b xs h hs.1)
  | inr e ↦ rw e (h, hs)
]

All-later :
    (b x : Booking) (xs : List Booking)
    → b.starts_at ≤ x.starts_at
    → All (λ y. x.starts_at ≤ y.starts_at) xs
    → All (λ y. b.starts_at ≤ y.starts_at) xs
All-later b x [] h hs = tt
All-later b x (y ∷ ys) h hs = (omega arith, All-later b x ys h hs.1)

insert_sorted-IsSorted :
    (b : Booking) (bs : List Booking) → IsSorted bs → IsSorted (insert_sorted b bs)
unfolding insert_sorted
insert_sorted-IsSorted b [] h = (tt, tt)
insert_sorted-IsSorted b (x ∷ xs) h = elim (Bool-cases (ltb x.starts_at b.starts_at)) [
  | inl e ↦ rw e (
    All-insert_sorted (λ y. x.starts_at ≤ y.starts_at) b xs (ground arith) h.0,
    insert_sorted-IsSorted b xs h.1,
  )
  | inr e ↦
      let le : b.starts_at ≤ x.starts_at = ltb→le x.starts_at b.starts_at e in
      rw e ((le, All-later b x xs le h.0), h)
]

sort_bookings-perm : (bs : List Booking) → Perm (sort_bookings bs) bs
unfolding sort_bookings
sort_bookings-perm [] = Perm.refl []
sort_bookings-perm (b ∷ bs) =
    Perm.trans (insert_sorted-perm b (sort_bookings bs)) (Perm.cons b (sort_bookings-perm bs))

sort_bookings-IsSorted : (bs : List Booking) → IsSorted (sort_bookings bs)
unfolding sort_bookings
sort_bookings-IsSorted [] = tt
sort_bookings-IsSorted (b ∷ bs) =
    insert_sorted-IsSorted b (sort_bookings bs) (sort_bookings-IsSorted bs)

pub list_bookings-perm :
    (s : Store) (customer_id : String)
    → Perm (list_bookings s customer_id) (
        own_bookings s customer_id
        ++ aliased_bookings s (get_list (lookup customer_id s.profile_aliases)))
unfolding list_bookings
list_bookings-perm s customer_id = sort_bookings-perm _

-- What is stored under a profile.
abbrev pub bookings_of : Store → String → List Booking
bookings_of s profile = get_list (lookup profile s.bookings)

-- The profiles that were linked to one.
abbrev pub linked_profiles : Store → String → List String
linked_profiles s customer_id = get_list (lookup customer_id s.profile_aliases)

-- The appointment is stored under the customer or under a profile that was linked to it.
abbrev pub IsOwn : Store → String → Booking → Type 0
IsOwn s customer_id b = ∥ (
    (profile : String) × ((profile ≡ customer_id) ⊎ Mem profile (linked_profiles s customer_id))
    × Mem b (bookings_of s profile)) ∥₁

aliased_bookings-flat_map :
    (s : Store) (aliases : List String)
    → aliased_bookings s aliases ≡ flat_map (bookings_of s) aliases
unfolding aliased_bookings own_bookings flat_map
aliased_bookings-flat_map s [] = refl
aliased_bookings-flat_map s (x ∷ xs) =
    ap (λ ys. bookings_of s x ++ ys) (aliased_bookings-flat_map s xs)

mem-flat_map :
    (s : Store) (profiles : List String) (b : Booking)
    → Mem b (flat_map (bookings_of s) profiles)
    → ∥ ((profile : String) × Mem profile profiles × Mem b (bookings_of s profile)) ∥₁
unfolding flat_map
mem-flat_map s [] b h = absurd (not-mem-nil h)
mem-flat_map s (x ∷ xs) b h =
    Or.elim ∥∥₁_prop (mem-append.0 h) (λ m. ∣ (x, mem-cons_self, m) ∣₁)
      (λ m. ∥∥₁_map (mem-flat_map s xs b m) (λ (y, p, q). (y, mem-cons_of_mem x p, q)))

flat_map-Mem :
    (s : Store) (profiles : List String) (profile : String) (b : Booking)
    → Mem b (bookings_of s profile)
    → Mem profile profiles
    → Mem b (flat_map (bookings_of s) profiles)
unfolding flat_map
flat_map-Mem s [] profile b h m = absurd (not-mem-nil m)
flat_map-Mem s (x ∷ xs) profile b h m =
    Or.elim Mem-prop (mem-cons.0 m)
      (λ e. mem-append_left _ (subst (λ y. Mem b (bookings_of s y)) e h))
      (λ later. mem-append_right _ (flat_map-Mem s xs profile b h later))

owned :
    (s : Store) (customer_id : String) (b : Booking)
    → Mem b (flat_map (bookings_of s) (customer_id ∷ linked_profiles s customer_id))
      ↔ IsOwn s customer_id b
owned s customer_id b = (
  λ h. ∥∥₁_elim (mem-flat_map s _ b h) ∥∥₁_prop (λ (profile, p, m).
      Or.elim ∥∥₁_prop (mem-cons.0 p) (λ e. ∣ (profile, inl e, m) ∣₁)
        (λ q. ∣ (profile, inr q, m) ∣₁)),
  λ h. ∥∥₁_elim h Mem-prop (λ (profile, p, m).
      flat_map-Mem s _ profile b m
        (elim p [ inl e ↦ mem-cast e mem-cons_self | inr q ↦ mem-cons_of_mem customer_id q ])),
)

-- A customer's appointments are listed soonest first; an appointment is listed exactly if it is
-- stored under the customer or under a profile that was linked to it; and each is listed as often
-- as it is stored there.
pub list_bookings_lem :
    (s : Store) (customer_id : String)
    → IsSorted (list_bookings s customer_id)
      × ((b : Booking) → Mem b (list_bookings s customer_id) ↔ IsOwn s customer_id b)
      × Perm
          (list_bookings s customer_id)
          (flat_map (bookings_of s) (customer_id ∷ linked_profiles s customer_id))
unfolding list_bookings flat_map own_bookings
list_bookings_lem s customer_id =
    let all : Perm (list_bookings s customer_id)
        (flat_map (bookings_of s) (customer_id ∷ linked_profiles s customer_id)) =
      subst (λ ys. Perm (list_bookings s customer_id) (bookings_of s customer_id ++ ys))
        (aliased_bookings-flat_map s (linked_profiles s customer_id))
        (list_bookings-perm s customer_id) in
    (
      sort_bookings-IsSorted _,
      λ b.
          let found = Perm.mem_iff {a = b} all in
          let own = owned s customer_id b in (λ h. own.0 (found.0 h), λ h. found.1 (own.1 h)),
      all,
    )
