-- ===== src/Memory/Profiles/Link.antt =====
-- A verified number brings a customer's accounts and appointments together.
use mathlib.Core.List.{Mem, mem-append_left, mem-append_right}
use mathlib.Core.List.Perm
use omnichannel_booking_assi.Prelude.{
  ◌≡◌, ◌≢◌, refl, inl, inr, sym, subst, String, true, false, Option, none, some, List, [], ◌∷◌,
  ◌++◌, arith, eq_iff, eq_refl, str_cases,
}
use omnichannel_booking_assi.Prelude.Dict.{Dict, lookup, lookup-insert_self}
use omnichannel_booking_assi.Prelude.Time.{Time}
use omnichannel_booking_assi.Domain.Errors.{Result, ok, err}
use omnichannel_booking_assi.Domain.Booking.{Booking}
use omnichannel_booking_assi.Domain.Customer.{Customer, ChannelIdentity, key, validate}
use omnichannel_booking_assi.Domain.Phone.{has_prefix, normalize_phone}
use omnichannel_booking_assi.Memory.Store.{Store, get_list}
use omnichannel_booking_assi.Memory.Customers.{find_or_create}
use omnichannel_booking_assi.Memory.Bookings.{own_bookings, aliased_bookings, list_bookings}
use omnichannel_booking_assi.Memory.Bookings.Sorted.{list_bookings-perm}
use omnichannel_booking_assi.Memory.Profiles.{
  profile_id, contains, canonical_of, linked_aliases, link_verified_identity,
}

contains-append : (xs : List String) (id : String) → contains (xs ++ id ∷ []) id ≡ true
unfolding contains
contains-append [] id = ground (arith, eq_refl id)
contains-append (x ∷ xs) id = ground (arith, contains-append xs id)

-- An id that is not a profile's is among the aliases afterwards.
linked_aliases-contains :
    (s : Store) (profile old_id : String)
    → old_id ≢ profile
    → has_prefix old_id "verified_phone_" ≡ false
    → contains (get_list (lookup profile (linked_aliases s profile old_id))) old_id ≡ true
unfolding linked_aliases
linked_aliases-contains s profile old_id ne p =
    let aliases = get_list (lookup profile s.profile_aliases) in
    ground (
      arith,
      eq_iff old_id profile,
      contains-append aliases old_id,
      lookup-insert_self profile (aliases ++ old_id ∷ []) s.profile_aliases,
    )

aliased-Mem :
    (s : Store) (aliases : List String) (id : String) (b : Booking)
    → contains aliases id ≡ true
    → Mem b (own_bookings s id)
    → Mem b (aliased_bookings s aliases)
unfolding contains aliased_bookings
aliased-Mem s [] id b h m = cc
aliased-Mem s (x ∷ xs) id b h m = elim (str_cases x id) [
  | inl same ↦ mem-append_left (aliased_bookings s xs) (rw same m)
  | inr ne ↦
      mem-append_right (own_bookings s x) (aliased-Mem s xs id b (ground (arith, eq_iff x id)) m)
]

-- What a link that succeeds writes.
linked :
    (parse : String → Option String) (digest : String → String) (s : Store)
    (identity : ChannelIdentity) (old c : Customer) (raw phone : String) (now : Time)
    → normalize_phone parse raw ≡ ok phone
    → (link_verified_identity parse digest s identity old raw now).1 ≡ ok c
    → let t = (link_verified_identity parse digest s identity old raw now).0 in
      let profile = profile_id digest phone in
      (t.profile_aliases ≡ linked_aliases s profile old.id) × (t.bookings ≡ s.bookings)
unfolding link_verified_identity
linked parse digest s identity old c raw phone now e h = (ground arith, ground arith)

-- When a customer's account is linked to a verified number, every appointment that the customer
-- had, under an id that is no profile's, is listed for the number's profile: the history is kept.
pub list_bookings-link :
    (parse : String → Option String) (digest : String → String) (s : Store)
    (identity : ChannelIdentity) (old c : Customer) (raw phone : String) (now : Time) (b : Booking)
    → normalize_phone parse raw ≡ ok phone
    → (link_verified_identity parse digest s identity old raw now).1 ≡ ok c
    → old.id ≢ profile_id digest phone
    → has_prefix old.id "verified_phone_" ≡ false
    → Mem b (own_bookings s old.id)
    → Mem b (
        list_bookings
          (link_verified_identity parse digest s identity old raw now).0
          (profile_id digest phone))
unfolding own_bookings
list_bookings-link parse digest s identity old c raw phone now b e h ne p m =
    let t = (link_verified_identity parse digest s identity old raw now).0 in
    let profile = profile_id digest phone in
    let (aliases, bookings) = linked parse digest s identity old c raw phone now e h in
    let all = get_list (lookup profile t.profile_aliases) in
    let known : contains all old.id ≡ true =
      rw aliases (linked_aliases-contains s profile old.id ne p) in
    let mine : Mem b (own_bookings t old.id) =
      subst (λ (x : Dict (List Booking)). Mem b (get_list (lookup old.id x))) (sym bookings) m in
    (Perm.mem_iff (list_bookings-perm t profile)).1
      (mem-append_right (own_bookings t profile) (aliased-Mem t all old.id b known mine))

-- After a link that succeeded, the account finds the number's profile: nothing more is created, and
-- the customer found is the one that was returned, but for the proof of the number, which is not
-- stored.
pub find_or_create-link :
    (parse : String → Option String) (digest : String → String) (s : Store)
    (identity : ChannelIdentity) (old c candidate : Customer) (raw : String) (now : Time)
    → (link_verified_identity parse digest s identity old raw now).1 ≡ ok c
    → validate identity ≡ none
    → let t = (link_verified_identity parse digest s identity old raw now).0 in
      (d : Customer) × (find_or_create t identity candidate ≡ (t, ok d))
      × (record d { verified_phone = c.verified_phone } ≡ c)
unfolding link_verified_identity find_or_create
find_or_create-link parse digest s identity old c candidate raw now h valid =
    go (normalize_phone parse raw) refl (lookup (key identity) s.identities) refl
  where
    t : Store
    t = (link_verified_identity parse digest s identity old raw now).0

    go :
        (r : Result String)
        → normalize_phone parse raw ≡ r
        → (o : Option ChannelIdentity) → lookup (key identity) s.identities ≡ o
        → (d : Customer) × (find_or_create t identity candidate ≡ (t, ok d))
          × (record d { verified_phone = c.verified_phone } ≡ c)
    go (err e) eq o k = absurd (ground arith)
    go (ok phone) eq none k = absurd (ground arith)
    go (ok phone) eq (some stored) k =
        let profile = profile_id digest phone in
        let d = canonical_of s profile old phone now in
        let by_key =
          lookup-insert_self (key identity) (record stored { customer_id = profile })
            s.identities in
        let by_id = lookup-insert_self profile d s.customers in
        (d, ground (arith, by_key, by_id), ground arith)
