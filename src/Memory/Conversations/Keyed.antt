-- ===== src/Memory/Conversations/Keyed.antt =====
-- Each conversation is stored under its own key, and its revision counts the takeovers.
use omnichannel_booking_assi.Prelude.{
  ◌≡◌, inl, inr, String, Option, some, List, [], ◌∷◌, arith, eq_iff, str_cases, Bool-cases,
  Option-cases,
}
use omnichannel_booking_assi.Prelude.Dict.{Dict, lookup, insert, lookup-insert, lookup-insert_ne}
use omnichannel_booking_assi.Prelude.Time.{Time}
use omnichannel_booking_assi.Domain.Conversation.{
  Conversation, Message, key, observe_external_reply,
}
use omnichannel_booking_assi.Memory.Store.{Store, get_list}
use omnichannel_booking_assi.Memory.Conversations.{
  find_or_open, save, record_external_reply, is_stale, is_replay, target,
}

pub data Call : Type 0 where
  open_call : Conversation → Call
  save_call : Conversation → Call
  reply_call : Conversation → Message → Time → Time → Call

unfoldable pub apply : Store → Call → Store
apply s (open_call c) = (find_or_open s c).0
apply s (save_call c) = (save s c).0
apply s (reply_call c msg sent_at received_at) =
    (record_external_reply s c msg sent_at received_at).0

unfoldable pub run : Store → List Call → Store
run s [] = s
run s (c ∷ cs) = run (apply s c) cs

abbrev pub at_key : Store → String → Option Conversation
at_key s k = lookup k s.conversations

abbrev KeysOwn : Dict Conversation → Type 0
KeysOwn m = (k : String) (c : Conversation) → lookup k m ≡ some c → key c ≡ k

abbrev pub IsKeyed : Store → Type 0
IsKeyed s = KeysOwn s.conversations

pub observe-key :
    (c : Conversation) (sent_at received_at : Time)
    → key (observe_external_reply c sent_at received_at) ≡ key c
unfolding observe_external_reply key
observe-key c sent_at received_at = ground arith

-- A write of a conversation under its own key.
insert-KeysOwn :
    (m : Dict Conversation) (c : Conversation) → KeysOwn m → KeysOwn (insert (key c) c m)
insert-KeysOwn m c h k d g = elim (str_cases (key c) k) [
  | inl same ↦ ground (arith, lookup-insert (key c) k c m, eq_iff (key c) k)
  | inr ne ↦ h k d (ground (arith, lookup-insert_ne (key c) k c m))
]

open-IsKeyed : (s : Store) (c : Conversation) → IsKeyed s → IsKeyed (find_or_open s c).0
unfolding find_or_open
open-IsKeyed s c h = elim (Option-cases (lookup (key c) s.conversations)) [
  | inl absent ↦ rw (absent, find_or_open) (insert-KeysOwn s.conversations c h)
  | inr (d, found) ↦ rw (found, find_or_open) h
]

save-IsKeyed : (s : Store) (c : Conversation) → IsKeyed s → IsKeyed (save s c).0
unfolding save
save-IsKeyed s c h = elim (Bool-cases (is_stale (lookup (key c) s.conversations) c)) [
  | inl stale ↦ rw stale h
  | inr fresh ↦ rw fresh (insert-KeysOwn s.conversations c h)
]

pub target-key : (s : Store) (c : Conversation) → IsKeyed s → key (target s c) ≡ key c
target-key s c h = elim (Option-cases (at_key s (key c))) [
  | inl absent ↦ rw (absent, target)
  | inr (d, found) ↦ rw (found, target) (h (key c) d found)
]

reply-IsKeyed :
    (s : Store) (c : Conversation) (msg : Message) (sent_at received_at : Time)
    → IsKeyed s
    → IsKeyed (record_external_reply s c msg sent_at received_at).0
unfolding record_external_reply
reply-IsKeyed s c msg sent_at received_at h =
    elim (Bool-cases (is_replay (get_list (lookup (target s c).id s.messages)) msg)) [
      | inl replay ↦ rw replay h
      | inr new ↦ rw new (
          insert-KeysOwn s.conversations (observe_external_reply (target s c) sent_at received_at)
            h)
    ]

pub apply-IsKeyed : (s : Store) (c : Call) → IsKeyed s → IsKeyed (apply s c)
unfolding apply
apply-IsKeyed s (open_call c) h = open-IsKeyed s c h
apply-IsKeyed s (save_call c) h = save-IsKeyed s c h
apply-IsKeyed s (reply_call c msg sent_at received_at) h =
    reply-IsKeyed s c msg sent_at received_at h

pub run-IsKeyed : (s : Store) (cs : List Call) → IsKeyed s → IsKeyed (run s cs)
unfolding run
run-IsKeyed s [] h = h
run-IsKeyed s (c ∷ cs) h = run-IsKeyed (apply s c) cs (apply-IsKeyed s c h)
