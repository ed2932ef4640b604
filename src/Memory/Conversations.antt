-- ===== src/Memory/Conversations.antt =====
-- internal/adapters/persistence/memory: `FindOrOpen`, `Save`, `FindByID` and the turn registry of
-- store.go, and `RecordExternalReplyObserved` of external_reply.go.
pub mod Keyed
pub mod Revisions
pub mod Index
use omnichannel_booking_assi.Prelude.{
  ℕ, String, Bool, true, false, not, ◌&&◌, ◌||◌, Option, none, some, List, [], ◌∷◌, ◌++◌, eqb, ◌==◌,
  if◌then◌else◌,
}
use omnichannel_booking_assi.Prelude.Int.{pos}
use omnichannel_booking_assi.Prelude.Dict.{lookup, insert}
use omnichannel_booking_assi.Prelude.Time.{Time}
use omnichannel_booking_assi.Domain.Errors.{
  Error, Result, ok, err, not_found, external_reply_conflict, Entity,
}
use omnichannel_booking_assi.Domain.Conversation.{
  Conversation, State, Message, key, is_outbound, observe_external_reply,
}
use omnichannel_booking_assi.Memory.Store.{Store, get_list, get_text}

-- The zero `Conversation`.
abbrev pub no_conversation : Conversation
no_conversation = record {
  preferred_language = "";
  id = "";
  customer_id = "";
  provider = "";
  external_thread_id = "";
  state = State.other "";
  external_reply_revision = 0;
  assistant_resumed_at = 0;
  draft = none;
  handoff_at = 0;
  booking_change = none;
  created_at = 0;
  updated_at = 0;
  last_message_at = 0;
  last_choice_message_id = "";
  pending_choice_message_id = "";
  pending_choice_event_id = "";
  presented_choices = [];
  catalogue_category = "";
  catalogue_service_id = "";
  catalogue_staff_id = "";
  catalogue_page = pos 0;
  catalogue_phase = "";
  catalogue_date = "";
  reminder_opt_in = false;
}

abbrev pub get_conversation : Option Conversation → Conversation
get_conversation none = no_conversation
get_conversation (some c) = c

-- Both maps at a conversation that is stored.
abbrev pub store_conversation : Store → Conversation → Store
store_conversation s conv = record s {
  conversations = insert (key conv) conv s.conversations;
  conversation_key_by_id = insert conv.id (key conv) s.conversation_key_by_id;
}

unfoldable pub find_or_open : Store → Conversation → Store × Conversation
find_or_open s candidate = elim (lookup (key candidate) s.conversations) [
  | some existing ↦ (s, existing)
  | none ↦ (store_conversation s candidate, candidate)
]

-- Whether a newer copy is stored.
abbrev pub is_stale : Option Conversation → Conversation → Bool
is_stale none conv = false
is_stale (some current) conv =
    not (eqb current.external_reply_revision conv.external_reply_revision)

unfoldable pub save : Store → Conversation → Store × Option Error
save s conv =
    if is_stale (lookup (key conv) s.conversations) conv
    then (s, some external_reply_conflict)
    else (store_conversation s conv, none)

unfoldable pub find_by_id : Store → String → Result Conversation
find_by_id s conversation_id = elim (lookup conversation_id s.conversation_key_by_id) [
  | none ↦ err (not_found Entity.conversation)
  | some k ↦ ok (get_conversation (lookup k s.conversations))
]

-- The loop of `RecordExternalReplyObserved`: whether the echo is in the transcript already.
unfoldable pub is_replay : List Message → Message → Bool
is_replay [] msg = false
is_replay (previous ∷ rest) msg =
    is_outbound previous.direction && previous.external_message_id == msg.external_message_id
    || is_replay rest msg

-- The conversation that the reply belongs to: the stored one, or else the candidate.
abbrev pub target : Store → Conversation → Conversation
target s candidate = elim (lookup (key candidate) s.conversations) [
  | none ↦ candidate
  | some stored ↦ stored
]

-- The store, the conversation, and whether the reply took the conversation over.
unfoldable pub record_external_reply :
    Store → Conversation → Message → Time → Time → Store × Conversation × Bool
record_external_reply s candidate msg sent_at received_at =
    let conv = target s candidate in
    let previous = get_list (lookup conv.id s.messages) in
    let msg' = record msg { conversation_id = conv.id } in
    let conv' = observe_external_reply conv sent_at received_at in
    if is_replay previous msg then (s, conv, false) else (
      record s {
        conversations = insert (key conv') conv' s.conversations;
        conversation_key_by_id = insert conv'.id (key conv') s.conversation_key_by_id;
        messages = insert conv.id (previous ++ msg' ∷ []) s.messages;
      },
      conv',
      not (eqb conv'.external_reply_revision conv.external_reply_revision),
    )

-- `RegisterTurn` and `IsLatestTurn`
unfoldable pub register_turn : Store → String → String → Store
register_turn s conversation_key event_id = record s {
  latest_turn = insert conversation_key event_id s.latest_turn;
}

unfoldable pub is_latest_turn : Store → String → String → Bool
is_latest_turn s conversation_key event_id =
    get_text (lookup conversation_key s.latest_turn) == event_id
