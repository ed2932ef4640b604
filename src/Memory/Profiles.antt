-- ===== src/Memory/Profiles.antt =====
-- internal/adapters/persistence/memory/profiles.go: `LinkVerifiedIdentity`, and `ProfileID` of
-- internal/domain/customer/customer.go. The digest and the phone library are parameters.
pub mod Link
use Prim.Native.String as Text
use omnichannel_booking_assi.Prelude.{
  String, Bool, true, false, not, ◌&&◌, ◌||◌, Option, none, some, List, [], ◌∷◌, ◌++◌, ◌==◌,
  if◌then◌else◌,
}
use omnichannel_booking_assi.Prelude.Dict.{Dict, lookup, insert}
use omnichannel_booking_assi.Prelude.Time.{Time}
use omnichannel_booking_assi.Domain.Errors.{Error, Result, ok, err, not_found, Entity}
use omnichannel_booking_assi.Domain.Customer.{Customer, ChannelIdentity, key}
use omnichannel_booking_assi.Domain.Phone.{has_prefix, normalize_phone}
use omnichannel_booking_assi.Memory.Store.{Store, get_list}

-- `ProfileID`
unfoldable pub profile_id : (String → String) → String → String
profile_id digest phone = Text.◌++◌ "verified_phone_" (digest phone)

-- `slices.Contains`
unfoldable pub contains : List String → String → Bool
contains [] id = false
contains (x ∷ xs) id = x == id || contains xs id

-- The profile of the number: the one that exists, or a new one for the customer.
unfoldable pub canonical_of : Store → String → Customer → String → Time → Customer
canonical_of s profile old phone now = elim (lookup profile s.customers) [
  | some existing ↦ existing
  | none ↦ record {
    id = profile;
    name = old.name;
    phone = phone;
    verified_phone = "";
    created_at = old.created_at;
    updated_at = now;
  }
]

-- The aliases, with the customer's old id at the profile unless it is a profile's or known.
unfoldable pub linked_aliases : Store → String → String → Dict (List String)
unfolding contains has_prefix
linked_aliases s profile old_id =
    let aliases = get_list (lookup profile s.profile_aliases) in
    if not (old_id == profile)
      && not (has_prefix old_id "verified_phone_")
      && not (contains aliases old_id)
    then insert profile (aliases ++ old_id ∷ []) s.profile_aliases
    else s.profile_aliases

-- `LinkVerifiedIdentity`. A profile that exists is written as it is.
unfoldable pub link_verified_identity :
    (String → Option String)
    → (String → String)
    → Store
    → ChannelIdentity
    → Customer
    → String
    → Time
    → Store × Result Customer
unfolding normalize_phone profile_id canonical_of linked_aliases key
link_verified_identity parse digest s identity old raw_phone now =
    elim (normalize_phone parse raw_phone) [
      | err e ↦ (s, err e)
      | ok phone ↦ elim (lookup (key identity) s.identities) [
        | none ↦ (s, err (not_found Entity.customer))
        | some stored ↦
            let profile = profile_id digest phone in
            let canonical = canonical_of s profile old phone now in
            if not (stored.customer_id == old.id) then (s, err (not_found Entity.customer)) else (
              record s {
                customers = insert profile canonical s.customers;
                profile_aliases = linked_aliases s profile old.id;
                identities =
                    insert (key identity) (record stored { customer_id = profile }) s.identities;
              },
              ok (record canonical { verified_phone = phone }),
            )
      ]
    ]
