-- ===== src/Assistant/Staff/Takeover.antt =====
-- internal/application/assistant/relay.go: the takeover is stored before the customer gets the reply.
use omnichannel_booking_assi.Prelude.{
  ◌≡◌, refl, ap, ◌⊎◌, inl, inr, String, Bool, true, false, not, ◌&&◌, Option, none, some, [], ◌∷◌,
  is_empty, Bool-cases,
}
use omnichannel_booking_assi.Prelude.Dict.{lookup, lookup-insert_self}
use omnichannel_booking_assi.Prelude.Time.{Time}
use omnichannel_booking_assi.Domain.Errors.{Error, Result, ok, err, wrapped, invalid_transition}
use omnichannel_booking_assi.Domain.Messaging.{Outgoing}
use omnichannel_booking_assi.Domain.Rules.{if_rule, option_rule, result_rule}
use omnichannel_booking_assi.Domain.Conversation.{
  Conversation, State, human_active, assistant_active, human_requested, closed, thread_key, key,
  is_human_active,
}
use omnichannel_booking_assi.Domain.Conversation.Transitions.{transition_to_lem, moved}
use omnichannel_booking_assi.Memory.Store.{Store}
use omnichannel_booking_assi.Memory.Conversations.{save, find_by_id, is_stale, store_conversation}
use omnichannel_booking_assi.Memory.Deliveries.{claim}
use omnichannel_booking_assi.Assistant.Lock.{
  Env, Sent, World, Outcome, with_store, lock, lock_name, under_lock,
}
use omnichannel_booking_assi.Assistant.Staff.{
  StaffReply, send_signed, on_saved, take_over, prepared, relay_locked, retired, relay_claimed,
  settle, on_claimed, relay_staff_reply, validate_reply, signed, outgoing, on_sent, handed,
}

-- In the store, a person has the conversation that the message goes to.
abbrev pub IsPaused : Sent → Type 0
IsPaused sent =
    (c : Conversation) × (lookup (thread_key sent.message.provider sent.message.external_thread_id)
        sent.store.conversations
      ≡ some c)
    × (c.state ≡ human_active)

-- The call failed and nothing was sent, or the signed reply was sent, once, to a conversation that a
-- person has.
abbrev pub Told : StaffReply → World → Option Error → Type 0
Told r w failure =
    (w.sends ≡ []) × ((e : Error) × (failure ≡ some e))
    ⊎ ((sent : Sent) × (w.sends ≡ sent ∷ []) × IsPaused sent × (sent.message.text ≡ signed r))

abbrev Ended : StaffReply → Outcome → Type 0
Ended r o = Told r o.world o.failure

retired-unsent :
    (env : Env) (c : Conversation) (w : World) → w.sends ≡ [] → (retired env c w).sends ≡ []
retired-unsent env c w unsent =
    if_rule (λ v. World.sends v ≡ [])
      (env.tracks_choices c.provider && not (is_empty c.last_choice_message_id)) (λ _. unsent)
      (λ _. unsent)

handed-IsPaused :
    (env : Env) (r : StaffReply) (w : World) (c : Conversation)
    → w.sends ≡ []
    → lookup (key c) w.store.conversations ≡ some c
    → c.state ≡ human_active
    → (sent : Sent) × ((handed env w (outgoing c (signed r))).sends ≡ sent ∷ [])
      × IsPaused sent
      × (sent.message.text ≡ signed r)
unfolding key
handed-IsPaused env r w c unsent stored human =
    let sent : Sent = record { message = outgoing c (signed r); store = w.store } in
    (sent, ap (λ sends. sent ∷ sends) unsent, (c, stored, human), refl)

on_sent-Told :
    (env : Env) (r : StaffReply) (w : World) (c : Conversation) (o : Option Error)
    → w.sends ≡ []
    → lookup (key c) w.store.conversations ≡ some c
    → c.state ≡ human_active
    → Ended r (on_sent env (handed env w (outgoing c (signed r))) c (signed r) o)
on_sent-Told env r w c none unsent stored human =
    inr (handed-IsPaused env r w c unsent stored human)
on_sent-Told env r w c (some e) unsent stored human =
    inr (handed-IsPaused env r w c unsent stored human)

send_signed-Told :
    (env : Env) (sender : Outgoing → Option Error) (r : StaffReply) (w : World) (c : Conversation)
    → w.sends ≡ []
    → lookup (key c) w.store.conversations ≡ some c
    → c.state ≡ human_active
    → Ended r (send_signed env sender r w c)
unfolding send_signed
send_signed-Told env sender r w c unsent stored human =
    on_sent-Told env r w c (sender (outgoing c (signed r))) unsent stored human

on_saved-Told :
    (env : Env) (sender : Outgoing → Option Error) (r : StaffReply) (w : World) (c : Conversation)
    → w.sends ≡ []
    → c.state ≡ human_active
    → Ended r (on_saved env sender r w c (save w.store c))
unfolding save
on_saved-Told env sender r w c unsent human =
    elim (Bool-cases (is_stale (lookup (key c) w.store.conversations) c)) [
      | inl stale ↦ rw stale (inl (unsent, (_, refl)))
      | inr fresh ↦ rw fresh (
          send_signed-Told env sender r (with_store w (store_conversation w.store c)) c unsent
            (lookup-insert_self (key c) c w.store.conversations) human)
    ]

human-eq : (s : State) → is_human_active s ≡ true → s ≡ human_active
human-eq human_active h = refl
human-eq assistant_active h = cc
human-eq human_requested h = cc
human-eq closed h = cc
human-eq (State.other t) h = cc

-- A takeover that succeeds gives the conversation to a person.
take_over-cases :
    (c : Conversation) (at moved_at : Time)
    → ((d : Conversation) × (take_over c at moved_at ≡ (d, none)) × (d.state ≡ human_active))
      ⊎ ((d : Conversation) × (e : Error) × (take_over c at moved_at ≡ (d, some e)))
unfolding take_over
take_over-cases c at moved_at = elim (Bool-cases (is_human_active c.state)) [
  | inl human ↦ inl (prepared c at, rw human refl, human-eq c.state human)
  | inr not_human ↦ elim (transition_to_lem (prepared c at) human_active moved_at) [
    | inl (same, stays) ↦ inl (prepared c at, rw not_human stays, same)
    | inr (inl (step, moves)) ↦
        inl (moved (prepared c at) human_active moved_at, rw not_human moves, refl)
    | inr (inr (ne, kept, refuses)) ↦
        inr (prepared c at, wrapped "to" invalid_transition, rw not_human refuses)
  ]
]

relay_locked-Told :
    (env : Env) (r : StaffReply) (c : Conversation) (w : World)
    → w.sends ≡ []
    → Ended r (relay_locked env r c w)
unfolding relay_locked
relay_locked-Told env r c w unsent =
    option_rule (Ended r) (env.senders c.provider) (λ _. inl (unsent, (_, refl)))
      (λ sender _. elim (take_over-cases c (env.clock 2) (env.clock 3)) [
        | inl (d, taken, human) ↦
            rw taken
              (on_saved-Told env sender r (retired env c w) d (retired-unsent env c w unsent) human)
        | inr (d, e, refused) ↦ rw refused (inl (retired-unsent env c w unsent, (_, refl)))
      ])

under_lock-Told :
    (env : Env) (r : StaffReply) (w : World) (id what : String)
    (body : Conversation → World → Outcome)
    → w.sends ≡ []
    → ((c : Conversation) (v : World) → v.sends ≡ [] → Ended r (body c v))
    → Ended r (under_lock env w id what body)
unfolding under_lock
under_lock-Told env r w id what body unsent told =
    result_rule (Ended r) (find_by_id w.store id)
      (λ c _.
        let (s, failure) = lock (lock_name env c) (env.new_id 1) (env.clock 1) env.waits w.store in
        option_rule (Ended r) failure
          (λ _.
            result_rule (Ended r) (find_by_id s id) (λ d _. told d (with_store w s) unsent)
              (λ e _. inl (unsent, (_, refl))))
          (λ e _. inl (unsent, (_, refl))))
      (λ e _. inl (unsent, (_, refl)))

relay_claimed-Told :
    (env : Env) (r : StaffReply) (w : World) → w.sends ≡ [] → Ended r (relay_claimed env r w)
unfolding relay_claimed
relay_claimed-Told env r w unsent =
    under_lock-Told env r w r.conversation_id "find the conversation a colleague replied to"
      (relay_locked env r) unsent (relay_locked-Told env r)

settle-Told :
    (env : Env) (r : StaffReply) (o : Outcome) → Ended r o → Told r (settle env r o) o.failure
unfolding settle
settle-Told env r o told = if_rule (λ w. Told r w o.failure) o.attempted (λ _. told) (λ _. told)

-- The event of the reply is another call's, or was finished.
abbrev pub IsRepeat : Env → StaffReply → World → Type 0
IsRepeat env r w = (claim w.store r.event_id (env.new_id 0) (env.clock 0)).1 ≡ ok false

abbrev Answer : Env → StaffReply → World → World × Option Error → Type 0
Answer env r w a = Told r a.0 a.1 ⊎ (a.0.sends ≡ []) × (a.1 ≡ none) × IsRepeat env r w

on_claimed-Answer :
    (env : Env) (r : StaffReply) (w : World) (a : Store × Result Bool)
    → w.sends ≡ []
    → claim w.store r.event_id (env.new_id 0) (env.clock 0) ≡ a
    → Answer env r w (on_claimed env r w a)
on_claimed-Answer env r w (s, err e) unsent claimed = inl (inl (unsent, (e, refl)))
on_claimed-Answer env r w (s, ok false) unsent claimed = inr (unsent, refl, ap (λ a. a.1) claimed)
on_claimed-Answer env r w (s, ok true) unsent claimed = inl (
    settle-Told env r (relay_claimed env r (with_store w s))
      (relay_claimed-Told env r (with_store w s) unsent))

-- When a colleague's reply is relayed, exactly one message is sent to the customer, or the call
-- ends in an error, or it has done nothing because the event of the reply was claimed or finished
-- before. The message is the signed text, and when it is sent the store has the conversation of its
-- thread as one that a person has, so that the assistant may not reply there.
pub relay_staff_reply-Told :
    (env : Env) (r : StaffReply) (w : World)
    → w.sends ≡ []
    → Told r (relay_staff_reply env r w).0 (relay_staff_reply env r w).1
      ⊎ ((relay_staff_reply env r w).0.sends ≡ [])
        × ((relay_staff_reply env r w).1 ≡ none)
        × IsRepeat env r w
unfolding relay_staff_reply
relay_staff_reply-Told env r w unsent =
    option_rule (Answer env r w) (validate_reply r)
      (λ _.
        if_rule (Answer env r w) (is_empty r.event_id)
          (λ _. inl (relay_claimed-Told env r w unsent))
          (λ _. on_claimed-Answer env r w _ unsent refl))
      (λ e _. inl (inl (unsent, (e, refl))))
