-- ===== src/Assistant/Commands/Guard.antt =====
-- internal/application/assistant/external_reply.go: checkExternalReply against the replies that the
-- repository records.
use omnichannel_booking_assi.Prelude.{
  ℕ, ◌<◌, ◌^◌, ◌⊎◌, ◌&&◌, ◌++◌, ◌∷◌, [], ◌≡◌, refl, ap, subst, ◌∙◌, inl, inr, true, false, not,
  none, some, eqb, is_empty, Bool-cases, if◌then◌else◌, arith,
}
use omnichannel_booking_assi.Prelude.Dict.{lookup, insert, lookup-insert_self}
use omnichannel_booking_assi.Prelude.Time.{Time, is_zero, after}
use omnichannel_booking_assi.Domain.Errors.{ok, external_reply_conflict}
use omnichannel_booking_assi.Domain.Conversation.{
  Conversation, Message, key, observe_external_reply, human_active,
}
use omnichannel_booking_assi.Memory.Store.{Store, get_list}
use omnichannel_booking_assi.Memory.Conversations.{
  find_by_id, record_external_reply, is_replay, target,
}
use omnichannel_booking_assi.Assistant.Commands.{check_external_reply}

abbrev replied : Store → Conversation → Conversation → Message → Store
replied s c conv msg = record s {
  conversations = insert (key conv) conv s.conversations;
  conversation_key_by_id = insert conv.id (key conv) s.conversation_key_by_id;
  messages =
      insert c.id (get_list (lookup c.id s.messages) ++ record msg { conversation_id = c.id } ∷ [])
        s.messages;
}

observe-id :
    (c : Conversation) (sent_at received_at : Time)
    → (observe_external_reply c sent_at received_at).id ≡ c.id
unfolding observe_external_reply
observe-id c sent_at received_at = ground arith

-- After a reply, the conversation's id finds it as the reply left it.
found_after :
    (s : Store) (c conv : Conversation) (msg : Message)
    → conv.id ≡ c.id
    → find_by_id (replied s c conv msg) c.id ≡ ok conv
unfolding find_by_id
found_after s c conv msg same_id =
    let by_id = lookup-insert_self conv.id (key conv) s.conversation_key_by_id in
    let by_key = lookup-insert_self (key conv) conv s.conversations in
    subst (λ i. find_by_id (replied s c conv msg) i ≡ ok conv) same_id
      (rw (by_id, find_by_id) (rw by_key refl))

-- The check against a copy that is stored.
check_external_reply_found :
    (s : Store) (c d : Conversation)
    → is_empty c.provider ≡ false
    → find_by_id s c.id ≡ ok d
    → check_external_reply s c ≡ (
        if not (eqb d.external_reply_revision c.external_reply_revision)
        then some external_reply_conflict
        else none)
unfolding check_external_reply
check_external_reply_found s c d named found = rw (named, found) refl

eqb-same : (n : ℕ) → eqb n n ≡ true
eqb-same n = ground arith

observe-cases :
    (c : Conversation) (sent_at received_at : Time)
    → c.external_reply_revision < 2 ^ 64
    → let conv = observe_external_reply c sent_at received_at in
      (conv ≡ c)
      ⊎ (conv.state ≡ human_active)
        × (eqb conv.external_reply_revision c.external_reply_revision ≡ false)
unfolding observe_external_reply
observe-cases c sent_at received_at bound =
    elim (Bool-cases
      (not (is_zero c.assistant_resumed_at) && not (after sent_at c.assistant_resumed_at))) [
        | inl old ↦ inl (rw old refl)
        | inr new ↦ inr (rw new refl, rw new (ground arith))
      ]

-- The copy of a turn against what the store has.
abbrev pub Guards : Store → Conversation → Type 0
Guards s copy =
    (check_external_reply s copy ≡ none) × (find_by_id s copy.id ≡ ok copy)
    ⊎ (check_external_reply s copy ≡ some external_reply_conflict)
      × ((conv : Conversation) × (find_by_id s copy.id ≡ ok conv) × (conv.state ≡ human_active))

unchanged-Guards :
    (s : Store) (c : Conversation)
    → is_empty c.provider ≡ false
    → find_by_id s c.id ≡ ok c
    → Guards s c
unchanged-Guards s c named found = inl (
  check_external_reply_found s c c named found ∙ rw (eqb-same c.external_reply_revision) refl,
  found,
)

observed-Guards :
    (s : Store) (c conv : Conversation)
    → is_empty c.provider ≡ false
    → find_by_id s c.id ≡ ok conv
    → (conv ≡ c)
      ⊎ (conv.state ≡ human_active)
        × (eqb conv.external_reply_revision c.external_reply_revision ≡ false)
    → Guards s c
observed-Guards s c conv named found (inl same) = unchanged-Guards s c named (found ∙ ap ok same)
observed-Guards s c conv named found (inr (human, newer)) =
    inr (check_external_reply_found s c conv named found ∙ rw newer refl, (conv, found, human))

-- A turn has loaded a conversation of a channel, and then a reply from outside the assistant is
-- recorded, which may also be an old one or an echo. After that, the check of the turn's copy
-- passes and the store still has that very copy, or it answers with a conflict and the store has
-- the conversation as one that a person has.
pub record_external_reply-Guards :
    (s : Store) (c : Conversation) (msg : Message) (sent_at received_at : Time)
    → is_empty (target s c).provider ≡ false
    → (target s c).external_reply_revision < 2 ^ 64
    → find_by_id s (target s c).id ≡ ok (target s c)
    → Guards (record_external_reply s c msg sent_at received_at).0 (target s c)
unfolding record_external_reply
record_external_reply-Guards s c msg sent_at received_at named bound stored =
    let loaded = target s c in
    let conv = observe_external_reply loaded sent_at received_at in
    elim (Bool-cases (is_replay (get_list (lookup loaded.id s.messages)) msg)) [
      | inl replay ↦ rw replay (unchanged-Guards s loaded named stored)
      | inr new ↦ rw new (
          observed-Guards _ loaded conv named
            (found_after s loaded conv msg (observe-id loaded sent_at received_at))
            (observe-cases loaded sent_at received_at bound))
    ]
