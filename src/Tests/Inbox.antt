-- ===== src/Tests/Inbox.antt =====
-- Tests of the memory repository: linked profiles, and the pages of the staff inbox.
use mathlib.Core.List.{Mem, mem-cons_self}
use omnichannel_booking_assi.Prelude.{
  eq_false→ne, Option, ◌≢◌, ◌+◌, ◌%◌, ◌^◌, ◌<◌, ◌≡◌, refl, ◌⊎◌, String, false, not, ◌&&◌, none,
  some, List, [], ◌∷◌, ◌++◌, arith, ◌==◌, if◌then◌else◌, length, min,
}
use omnichannel_booking_assi.Prelude.Int.{pos}
use omnichannel_booking_assi.Prelude.Dict.{values, lookup}
use omnichannel_booking_assi.Domain.Errors.{ok}
use omnichannel_booking_assi.Domain.Conversation.{key}
use omnichannel_booking_assi.Domain.Customer.{Customer, ChannelIdentity, validate}
use omnichannel_booking_assi.Domain.Phone.{normalize_phone, has_prefix}
use omnichannel_booking_assi.Memory.Customers.{find_or_create}
use omnichannel_booking_assi.Memory.Pages.{Cursor}
use omnichannel_booking_assi.Memory.Inbox.{telegram_conversations}
use omnichannel_booking_assi.Memory.Inbox.Paging.{listing, telegram_conversations_lem}
use omnichannel_booking_assi.Memory.Inbox.Strict.{HaveDistinctKeys}
use omnichannel_booking_assi.Memory.Profiles.{profile_id, link_verified_identity}
use omnichannel_booking_assi.Memory.Profiles.Link.{list_bookings-link, find_or_create-link}
use omnichannel_booking_assi.Memory.Store.{Store}
use omnichannel_booking_assi.Memory.Bookings.{own_bookings, list_bookings}
use omnichannel_booking_assi.Tests.Samples.{booked, empty_store, thread, visit}

-- A library that finds every number valid, and a digest.
abbrev any_number : String → Option String
any_number s = some s

abbrev digest : String → String
digest s = "d"

abbrev account : ChannelIdentity
account = record {
  id = "i1";
  customer_id = "u1";
  provider = "telegram";
  external_user_id = "7";
  display_name = "Ani";
  language = "hy";
  created_at = 1;
}

abbrev guest : Customer
guest = record {
  id = "u1";
  name = "Ani";
  phone = "";
  verified_phone = "";
  created_at = 1;
  updated_at = 1;
}

abbrev known : Store
known = record booked { customers = ("u1", guest) ∷ []; identities = ("telegram:7", account) ∷ [] }

abbrev profile : Customer
profile = record guest {
  id = "verified_phone_d";
  phone = "+37491123456";
  verified_phone = "+37491123456";
  updated_at = 9;
}

number_normal : normalize_phone any_number "+374 91 123456" ≡ ok "+37491123456"
unfolding normalize_phone omnichannel_booking_assi.Prelude.Spaces.trim_space has_prefix
number_normal = refl

link_runs :
    (link_verified_identity any_number digest known account guest "+374 91 123456" 9).1 ≡ ok profile
unfolding link_verified_identity omnichannel_booking_assi.Prelude.Spaces.trim_space lookup
link_runs = refl

guest_plain : has_prefix "u1" "verified_phone_" ≡ false
unfolding has_prefix
guest_plain = refl

guest_new : "u1" ≢ profile_id digest "+37491123456"
unfolding profile_id
guest_new = eq_false→ne "u1" "verified_phone_d" refl

visit_stored : Mem visit (own_bookings known "u1")
unfolding own_bookings lookup
visit_stored = mem-cons_self

list_bookings-link_example : Mem visit (
    list_bookings
      (link_verified_identity any_number digest known account guest "+374 91 123456" 9).0
      (profile_id digest "+37491123456"))
list_bookings-link_example =
    list_bookings-link any_number digest known account guest profile "+374 91 123456" "+37491123456"
      9 visit number_normal link_runs guest_new guest_plain visit_stored

account_valid : validate account ≡ none
unfolding validate
account_valid = refl

find_or_create-link_example :
    let t = (link_verified_identity any_number digest known account guest "+374 91 123456" 9).0 in
    (d : Customer) × (find_or_create t account guest ≡ (t, ok d))
    × (record d { verified_phone = "+37491123456" } ≡ profile)
find_or_create-link_example =
    find_or_create-link any_number digest known account guest profile guest "+374 91 123456" 9
      link_runs account_valid

-- Two conversations of one time, and pages of one.
abbrev two_threads : Store
two_threads = record empty_store {
  conversations =
      ("telegram:7", thread)
      ∷ ("telegram:8", record thread { id = "c2"; external_thread_id = "8" })
      ∷ [];
}

two_threads-HaveDistinctKeys : HaveDistinctKeys (values two_threads.conversations)
unfolding values key
two_threads-HaveDistinctKeys = ((eq_false→ne "telegram:7" "telegram:8" refl, tt), (tt, tt))

-- The first page shows the greater key, and its cursor leads to the other.
two_threads_first :
    (telegram_conversations two_threads none (pos 1)).next
    ≡ some (record { last_message_at = 0; key = "telegram:8" })
unfolding telegram_conversations values
two_threads_first = refl

telegram_conversations_lem_example :
    let page = telegram_conversations two_threads none (pos 1) in
    (page.next ≡ none) × (page.items ≡ listing two_threads none)
    ⊎ ((c : Cursor) × (page.next ≡ some c)
        × (page.items ++ listing two_threads (some c) ≡ listing two_threads none))
telegram_conversations_lem_example =
    telegram_conversations_lem two_threads none (pos 1) two_threads-HaveDistinctKeys
