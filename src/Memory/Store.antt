-- ===== src/Memory/Store.antt =====
-- internal/adapters/persistence/memory/store.go: the state of the store, and an empty one.
use omnichannel_booking_assi.Prelude.{◌*◌, String, Option, none, some, List, []}
use omnichannel_booking_assi.Prelude.Int.{pos}
use omnichannel_booking_assi.Prelude.Dict.{Dict}
use omnichannel_booking_assi.Prelude.Time.{Time, Duration, hour, minute}
use omnichannel_booking_assi.Domain.Customer.{Customer, ChannelIdentity}
use omnichannel_booking_assi.Domain.Conversation.{Conversation, Message}
use omnichannel_booking_assi.Domain.Booking.{Booking}
use omnichannel_booking_assi.Domain.Reminder.{Reminder}
use omnichannel_booking_assi.Memory.Pages.{Page}

pub record ProcessedEntry : Type 0 where
  pub claim_id : String
  pub processed_at : Time
  pub expires_at : Time

-- `now`, the clock, is an argument of the methods that read it.
pub record Store : Type 0 where
  pub customers : Dict Customer
  pub identities : Dict ChannelIdentity
  pub profile_aliases : Dict (List String)
  pub conversations : Dict Conversation
  pub conversation_key_by_id : Dict String
  pub messages : Dict (List Message)
  pub processed : Dict ProcessedEntry
  pub latest_turn : Dict String
  pub bookings : Dict (List Booking)
  pub reminders : Dict Reminder
  pub staff_threads : Dict String
  pub inbox_pages : Dict Page
  pub processed_ttl : Duration
  pub claim_ttl : Duration

abbrev pub default_processed_ttl : Duration
default_processed_ttl = pos (24 * hour)

abbrev pub default_claim_ttl : Duration
default_claim_ttl = pos (5 * minute)

-- `New` with the options `WithProcessedTTL` and `WithClaimTTL`, absent as `none`.
unfoldable pub new : Option Duration → Option Duration → Store
new processed_ttl claim_ttl = record {
  customers = [];
  identities = [];
  profile_aliases = [];
  conversations = [];
  conversation_key_by_id = [];
  messages = [];
  processed = [];
  latest_turn = [];
  bookings = [];
  reminders = [];
  staff_threads = [];
  inbox_pages = [];
  processed_ttl = elim processed_ttl [ none ↦ default_processed_ttl | some ttl ↦ ttl ];
  claim_ttl = elim claim_ttl [ none ↦ default_claim_ttl | some ttl ↦ ttl ];
}

-- What a map of slices has at a key: the nil slice if the key is missing.
abbrev pub get_list {ℓ} : {V : Type ℓ} → Option (List V) → List V
get_list none = []
get_list (some l) = l

-- What a map of texts has at a key: "" if the key is missing.
abbrev pub get_text : Option String → String
get_text none = ""
get_text (some s) = s
