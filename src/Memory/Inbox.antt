-- ===== src/Memory/Inbox.antt =====
-- internal/adapters/persistence/memory/staffinbox.go: the pages of the staff inbox.
pub mod Order
pub mod Strict
pub mod Paging
use Prim.Native.Char.{code}
use omnichannel_booking_assi.Prelude.{
  ℕ, String, Bool, true, false, not, ◌&&◌, ◌||◌, Option, none, some, List, [], ◌∷◌, ◌++◌, ◌==◌,
  filter, length, take, ltb, eqb, is_empty, if◌then◌else◌,
}
use omnichannel_booking_assi.Prelude.Int.{ℤ, pos, pos_part, ltb_ℤ}
use omnichannel_booking_assi.Prelude.Dict.{lookup, insert, retain, values}
use omnichannel_booking_assi.Prelude.Time.{Time, after}
use omnichannel_booking_assi.Domain.Errors.{Result, ok, err, page_expired}
use omnichannel_booking_assi.Domain.Messaging.{telegram}
use omnichannel_booking_assi.Domain.Customer.{Customer}
use omnichannel_booking_assi.Domain.Conversation.{Conversation, Message, key}
use omnichannel_booking_assi.Memory.Store.{Store, get_list}
use omnichannel_booking_assi.Memory.Customers.{get_customer}
use omnichannel_booking_assi.Memory.Pages.{
  Cursor, Conversations, History, Page, conversation_limit, history_limit,
}

-- `s < t`: UTF-8 keeps the order of the code points.
unfoldable pub text_less : String → String → Bool
text_less s String.[] = false
text_less String.[] (String.◌∷◌ d t) = true
text_less (String.◌∷◌ c s) (String.◌∷◌ d t) =
    let rest = text_less s t in
    if ltb (code c) (code d) then true else if ltb (code d) (code c) then false else rest

-- `inboxLimit`
unfoldable pub inbox_limit : ℤ → ℕ → ℕ
inbox_limit limit maximum =
    if not (ltb_ℤ (pos 0) limit) || ltb_ℤ (pos maximum) limit then maximum else pos_part limit

abbrev pub cursor_of : Conversation → Cursor
cursor_of c = record { last_message_at = c.last_message_at; key = key c }

-- Whether the first stands before the second in the list: newer, or as new with the greater key.
unfoldable pub comes_before : Cursor → Cursor → Bool
unfolding text_less
comes_before c d =
    after c.last_message_at d.last_message_at
    || eqb c.last_message_at d.last_message_at && text_less d.key c.key

-- The tests of the loop: `After(…) || (Equal(…) && conv.Key() >= before.Key)` leaves a conversation out.
unfoldable pub is_listed : Option Cursor → Conversation → Bool
unfolding comes_before key
is_listed none c = c.provider == telegram
is_listed (some before) c =
    c.provider == telegram
    && not (
        after c.last_message_at before.last_message_at
        || eqb c.last_message_at before.last_message_at && not (text_less (key c) before.key))

-- `slices.SortFunc`
unfoldable pub insert_newest : Conversation → List Conversation → List Conversation
insert_newest c [] = c ∷ []
insert_newest c (x ∷ xs) =
    if comes_before (cursor_of x) (cursor_of c) then x ∷ insert_newest c xs else c ∷ x ∷ xs

unfoldable pub newest_first : List Conversation → List Conversation
unfolding insert_newest
newest_first [] = []
newest_first (c ∷ cs) = insert_newest c (newest_first cs)

abbrev pub last_of {ℓ} : {A : Type ℓ} → List A → Option A
last_of [] = none
last_of (x ∷ []) = some x
last_of (x ∷ y ∷ xs) = last_of (y ∷ xs)

unfoldable pub page_of : List Conversation → ℕ → Conversations
page_of items limit =
    if ltb limit (length items)
    then record {
      items = take limit items;
      next = elim (last_of (take limit items)) [ none ↦ none | some c ↦ some (cursor_of c) ];
    }
    else record { items = items; next = none }

-- `TelegramConversations`
unfoldable pub telegram_conversations : Store → Option Cursor → ℤ → Conversations
unfolding inbox_limit is_listed newest_first page_of
telegram_conversations s before limit =
    page_of (newest_first (filter (is_listed before) (values s.conversations)))
      (inbox_limit limit conversation_limit)

unfoldable pub inbox_customer : Store → String → Customer
inbox_customer s customer_id = get_customer (lookup customer_id s.customers)

-- The messages of the history before an id, by descending ids.
unfoldable pub insert_message : Message → List Message → List Message
insert_message m [] = m ∷ []
insert_message m (x ∷ xs) = if text_less m.id x.id then x ∷ insert_message m xs else m ∷ x ∷ xs

unfoldable pub latest_first : List Message → List Message
unfolding insert_message
latest_first [] = []
latest_first (m ∷ ms) = insert_message m (latest_first ms)

-- `slices.Reverse`
unfoldable pub reverse {ℓ} : {A : Type ℓ} → List A → List A
reverse [] = []
reverse (x ∷ xs) = reverse xs ++ x ∷ []

-- `InboxHistory`
unfoldable pub inbox_history : Store → String → String → ℤ → History
unfolding inbox_limit text_less latest_first reverse
inbox_history s conversation_id before limit =
    let n = inbox_limit limit history_limit in
    let items = latest_first (
      filter (λ m. is_empty before || text_less m.id before)
        (get_list (lookup conversation_id s.messages))) in
    if ltb n (length items)
    then record {
      messages = reverse (take n items);
      before = elim (last_of (take n items)) [ none ↦ "" | some m ↦ m.id ];
    }
    else record { messages = reverse items; before = "" }

-- `SaveInboxPage`; `now` is the clock.
unfoldable pub save_inbox_page : Store → Page → Time → Store
save_inbox_page s page now = record s {
  inbox_pages = insert page.id page (retain (λ stored. after stored.expires_at now) s.inbox_pages);
}

-- `InboxPage`
unfoldable pub inbox_page : Store → String → Time → Result Page
inbox_page s page_id now = elim (lookup page_id s.inbox_pages) [
  | none ↦ err page_expired
  | some page ↦ if after page.expires_at now then ok page else err page_expired
]
