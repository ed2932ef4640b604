-- ===== src/Memory/Customers.antt =====
-- internal/adapters/persistence/memory/store.go: `FindOrCreateByChannelIdentity`, `UpdateContact`.
use omnichannel_booking_assi.Prelude.{String, Option, none, some, is_empty, if◌then◌else◌}
use omnichannel_booking_assi.Prelude.Dict.{lookup, insert}
use omnichannel_booking_assi.Prelude.Time.{Time}
use omnichannel_booking_assi.Domain.Errors.{Error, Result, ok, err, not_found, Entity}
use omnichannel_booking_assi.Domain.Customer.{Customer, ChannelIdentity, key, validate}
use omnichannel_booking_assi.Memory.Store.{Store}

-- The zero `Customer`.
abbrev pub no_customer : Customer
no_customer = record {
  id = "";
  name = "";
  phone = "";
  verified_phone = "";
  created_at = 0;
  updated_at = 0;
}

abbrev pub get_customer : Option Customer → Customer
get_customer none = no_customer
get_customer (some c) = c

unfoldable pub find_or_create : Store → ChannelIdentity → Customer → Store × Result Customer
unfolding validate
find_or_create s identity candidate = elim (validate identity) [
  | some e ↦ (s, err e)
  | none ↦ elim (lookup (key identity) s.identities) [
    | some existing ↦ (s, ok (get_customer (lookup existing.customer_id s.customers)))
    | none ↦ (
      record s {
        customers = insert candidate.id candidate s.customers;
        identities = insert (key identity) identity s.identities;
      },
      ok candidate,
    )
  ]
]

unfoldable pub update_contact : Store → String → String → String → Time → Store × Option Error
update_contact s customer_id name phone now = elim (lookup customer_id s.customers) [
  | none ↦ (s, some (not_found Entity.customer))
  | some stored ↦
      let stored' = record stored {
        name = if is_empty name then stored.name else name;
        phone = if is_empty phone then stored.phone else phone;
        updated_at = now;
      } in
      (record s { customers = insert customer_id stored' s.customers }, none)
]
