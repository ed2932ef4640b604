-- ===== src/Memory/Conversations/Index.antt =====
-- A conversation that was stored is found again by its id, and an echo is recorded once.
use omnichannel_booking_assi.Prelude.{
  ◌≡◌, refl, sym, ap, ◌∙◌, inl, inr, String, true, false, none, some, List, [], ◌∷◌, ◌++◌, arith,
  eq_iff, str_cases, Bool-cases, Option-cases,
}
use omnichannel_booking_assi.Prelude.Dict.{Dict, lookup, insert, lookup-insert, lookup-insert_self}
use omnichannel_booking_assi.Prelude.Time.{Time}
use omnichannel_booking_assi.Domain.Errors.{ok}
use omnichannel_booking_assi.Domain.Conversation.{
  Conversation, Message, key, outbound, observe_external_reply,
}
use omnichannel_booking_assi.Memory.Store.{Store, get_list}
use omnichannel_booking_assi.Memory.Conversations.{
  find_or_open, save, find_by_id, record_external_reply, is_stale, is_replay, target,
}
use omnichannel_booking_assi.Memory.Conversations.Keyed.{
  Call, open_call, save_call, reply_call, apply, run, at_key, IsKeyed, observe-key, target-key,
}

-- Every key in the index has its conversation.
abbrev Indexes : Dict String → Dict Conversation → Type 0
Indexes ids m =
    (id k : String) → lookup id ids ≡ some k → (c : Conversation) × (lookup k m ≡ some c)

abbrev pub IsIndexed : Store → Type 0
IsIndexed s = Indexes s.conversation_key_by_id s.conversations

insert-Indexes :
    (ids : Dict String) (m : Dict Conversation) (id k : String) (c : Conversation)
    → Indexes ids m
    → Indexes (insert id k ids) (insert k c m)
insert-Indexes ids m id k c h i j g = elim (str_cases k j) [
  | inl same ↦ (c, rw (← same) (lookup-insert_self k c m))
  | inr ne ↦
      let (d, found) = h i j (ground (arith, lookup-insert id i k ids)) in
      (d, ground (arith, lookup-insert k j c m, eq_iff k j))
]

open-IsIndexed : (s : Store) (c : Conversation) → IsIndexed s → IsIndexed (find_or_open s c).0
unfolding find_or_open
open-IsIndexed s c h = elim (Option-cases (lookup (key c) s.conversations)) [
  | inl absent ↦
      rw (absent, find_or_open)
        (insert-Indexes s.conversation_key_by_id s.conversations c.id (key c) c h)
  | inr (d, found) ↦ rw (found, find_or_open) h
]

save-IsIndexed : (s : Store) (c : Conversation) → IsIndexed s → IsIndexed (save s c).0
unfolding save
save-IsIndexed s c h = elim (Bool-cases (is_stale (lookup (key c) s.conversations) c)) [
  | inl stale ↦ rw stale h
  | inr fresh ↦ rw fresh (insert-Indexes s.conversation_key_by_id s.conversations c.id (key c) c h)
]

reply-IsIndexed :
    (s : Store) (c : Conversation) (msg : Message) (sent_at received_at : Time)
    → IsIndexed s
    → IsIndexed (record_external_reply s c msg sent_at received_at).0
unfolding record_external_reply
reply-IsIndexed s c msg sent_at received_at h =
    let conv = observe_external_reply (target s c) sent_at received_at in
    elim (Bool-cases (is_replay (get_list (lookup (target s c).id s.messages)) msg)) [
      | inl replay ↦ rw replay h
      | inr new ↦
          rw new (insert-Indexes s.conversation_key_by_id s.conversations conv.id (key conv) conv h)
    ]

pub run-IsIndexed : (s : Store) (cs : List Call) → IsIndexed s → IsIndexed (run s cs)
unfolding run apply
run-IsIndexed s [] h = h
run-IsIndexed s (open_call c ∷ cs) h = run-IsIndexed (find_or_open s c).0 cs (open-IsIndexed s c h)
run-IsIndexed s (save_call c ∷ cs) h = run-IsIndexed (save s c).0 cs (save-IsIndexed s c h)
run-IsIndexed s (reply_call c msg sent_at received_at ∷ cs) h =
    run-IsIndexed (record_external_reply s c msg sent_at received_at).0 cs
      (reply-IsIndexed s c msg sent_at received_at h)

-- A conversation whose save was accepted is what its id finds, and what its thread opens.
pub find_by_id-save :
    (s : Store) (c d : Conversation)
    → (save s c).1 ≡ none
    → key d ≡ key c
    → (find_by_id (save s c).0 c.id ≡ ok c) × (find_or_open (save s c).0 d ≡ ((save s c).0, c))
unfolding save find_or_open find_by_id
find_by_id-save s c d h e =
    let by_id = lookup-insert_self c.id (key c) s.conversation_key_by_id in
    let by_key = lookup-insert_self (key c) c s.conversations in
    (ground (arith, by_id, by_key), ground (arith, by_key))

is_replay-append :
    (xs : List Message) (m n : Message)
    → m.direction ≡ outbound
    → m.external_message_id ≡ n.external_message_id
    → is_replay (xs ++ m ∷ []) n ≡ true
unfolding is_replay
is_replay-append [] m n d e = ground (arith, eq_iff m.external_message_id n.external_message_id)
is_replay-append (x ∷ xs) m n d e = ground (arith, is_replay-append xs m n d e)

is_replay_eq :
    (xs : List Message) (m n : Message)
    → m.external_message_id ≡ n.external_message_id
    → is_replay xs m ≡ is_replay xs n
unfolding is_replay
is_replay_eq [] m n e = refl
is_replay_eq (x ∷ xs) m n e = cc (is_replay_eq xs m n e)

replay_of_stored :
    (t : Store) (c d : Conversation) (xs : List Message) (msg : Message)
    → at_key t (key c) ≡ some d
    → lookup d.id t.messages ≡ some xs
    → is_replay xs msg ≡ true
    → is_replay (get_list (lookup (target t c).id t.messages)) msg ≡ true
replay_of_stored t c d xs msg h g e = rw (h, target) (rw g e)

observe-id :
    (c : Conversation) (sent_at received_at : Time)
    → (observe_external_reply c sent_at received_at).id ≡ c.id
unfolding observe_external_reply
observe-id c sent_at received_at = ground arith

-- What the store has once a reply is recorded: the conversation under its key, and the message in
-- its transcript.
reply_stored :
    (s : Store) (c : Conversation) (msg msg' : Message) (sent_at received_at : Time)
    → IsKeyed s
    → msg.direction ≡ outbound
    → msg.external_message_id ≡ msg'.external_message_id
    → let t = (record_external_reply s c msg sent_at received_at).0 in
      is_replay (get_list (lookup (target t c).id t.messages)) msg' ≡ true
unfolding record_external_reply
reply_stored s c msg msg' sent_at received_at keyed d e =
    let conv = target s c in
    let conv' = observe_external_reply conv sent_at received_at in
    let own = observe-key conv sent_at received_at ∙ target-key s c keyed in
    let previous = get_list (lookup conv.id s.messages) in
    let added = previous ++ record msg { conversation_id = conv.id } ∷ [] in
    let after = record s {
      conversations = insert (key conv') conv' s.conversations;
      conversation_key_by_id = insert conv'.id (key conv') s.conversation_key_by_id;
      messages = insert conv.id added s.messages;
    } in
    elim (Bool-cases (is_replay previous msg)) [
      | inl replay ↦ rw replay (sym (is_replay_eq previous msg msg' e) ∙ replay)
      | inr new ↦ rw new (
          replay_of_stored after c conv' added msg'
            (ap (λ k. lookup k (insert (key conv') conv' s.conversations)) (sym own)
              ∙ lookup-insert_self (key conv') conv' s.conversations)
            (ap (λ i. lookup i (insert conv.id added s.messages))
                (observe-id conv sent_at received_at)
              ∙ lookup-insert_self conv.id added s.messages)
            (is_replay-append previous (record msg { conversation_id = conv.id }) msg' d e))
    ]

-- An echo that is delivered again, at whatever times, is recognised by its external id: nothing
-- changes, and it takes nothing over.
pub record_external_reply_replayed :
    (s : Store) (c : Conversation) (msg msg' : Message)
    (sent_at received_at sent_at' received_at' : Time)
    → IsKeyed s
    → msg.direction ≡ outbound
    → msg.external_message_id ≡ msg'.external_message_id
    → let t = (record_external_reply s c msg sent_at received_at).0 in
      record_external_reply t c msg' sent_at' received_at' ≡ (t, target t c, false)
record_external_reply_replayed s c msg msg' sent_at received_at sent_at' received_at' keyed d e =
    let t = (record_external_reply s c msg sent_at received_at).0 in
    unfold record_external_reply in rw (reply_stored s c msg msg' sent_at received_at keyed d e)
