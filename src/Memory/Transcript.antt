-- ===== src/Memory/Transcript.antt =====
-- internal/adapters/persistence/memory/store.go: `Append` and `Recent`.
pub mod Append
use omnichannel_booking_assi.Prelude.{
  ℕ, ◌-◌, String, Bool, true, false, not, ◌&&◌, ◌||◌, List, [], ◌∷◌, ◌++◌, length, drop, is_empty,
  ltb, ◌==◌, if◌then◌else◌,
}
use omnichannel_booking_assi.Prelude.Int.{ℤ, pos, pos_part, ltb_ℤ}
use omnichannel_booking_assi.Prelude.Dict.{lookup, insert}
use omnichannel_booking_assi.Domain.Conversation.{Message}
use omnichannel_booking_assi.Memory.Store.{Store, get_list}

-- The test of the loop in `Append`.
abbrev pub is_same_message : Message → Message → Bool
is_same_message stored msg =
    stored.id == msg.id
    || not (is_empty msg.external_message_id)
      && stored.external_message_id == msg.external_message_id

unfoldable pub is_recorded : List Message → Message → Bool
is_recorded [] msg = false
is_recorded (stored ∷ rest) msg = is_same_message stored msg || is_recorded rest msg

unfoldable pub transcript : Store → String → List Message
transcript s conversation_id = get_list (lookup conversation_id s.messages)

unfoldable pub append : Store → Message → Store
unfolding transcript
append s msg =
    let all = transcript s msg.conversation_id in
    if is_recorded all msg
    then s
    else record s { messages = insert msg.conversation_id (all ++ msg ∷ []) s.messages }

unfoldable pub recent : Store → String → ℤ → List Message
unfolding transcript
recent s conversation_id limit =
    let all = transcript s conversation_id in
    if ltb_ℤ (pos 0) limit && ltb (pos_part limit) (length all)
    then drop (length all - pos_part limit) all
    else all
