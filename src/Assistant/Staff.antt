-- ===== src/Assistant/Staff.antt =====
-- internal/application/assistant/relay.go: a colleague's reply; `retireChoices` of interactions.go.
pub mod Takeover
use Prim.Native.String.{◌++◌}
use omnichannel_booking_assi.Prelude.{
  ℕ, String, Bool, true, false, not, ◌&&◌, Option, none, some, List, [], ◌∷◌, ◌==◌, eqb, is_empty,
  drop, length, ltb, ◌-◌, if◌then◌else◌,
}
use omnichannel_booking_assi.Prelude.Int.{pos}
use omnichannel_booking_assi.Prelude.Spaces.{trim_space}
use omnichannel_booking_assi.Prelude.Time.{Time}
use omnichannel_booking_assi.Domain.Errors.{
  Error, Result, ok, err, message, wrapped, switch, delivery_busy, external_reply_conflict, cause,
}
use omnichannel_booking_assi.Domain.Messaging.{Provider, Outgoing, content_text}
use omnichannel_booking_assi.Domain.Conversation.{
  Conversation, Message, State, assistant_active, human_active, closed, transition_to, thread_key,
  outbound, is_human_active, is_assistant_active,
}
use omnichannel_booking_assi.Memory.Store.{Store}
use omnichannel_booking_assi.Memory.Conversations.{save, find_by_id}
use omnichannel_booking_assi.Memory.Deliveries.{claim, complete, release}
use omnichannel_booking_assi.Memory.Transcript.{append}
use omnichannel_booking_assi.Assistant.Lock.{
  Env, Sent, World, Outcome, failed, with_store, lock, under_lock,
}

-- `StaffReply`
pub record StaffReply : Type 0 where
  pub conversation_id : String
  pub author_name : String
  pub text : String
  pub event_id : String

-- `StaffReply.Validate`
unfoldable pub validate_reply : StaffReply → Option Error
validate_reply r = switch (
    (is_empty r.conversation_id, message "staff reply: no conversation")
    ∷ (is_empty (trim_space r.text), message "staff reply: no text")
    ∷ [])

-- `retireChoices`, as to the store: the conversation forgets the message in any case.
abbrev pub retired : Env → Conversation → World → World
retired env conv w =
    if env.tracks_choices conv.provider && not (is_empty conv.last_choice_message_id)
    then with_store w (env.during_retire w.store)
    else w

-- The takeover that is stored before the send: the choices are retired, and a person has the conversation.
abbrev pub prepared : Conversation → Time → Conversation
prepared conv at = record conv {
  last_choice_message_id = "";
  pending_choice_message_id = "";
  pending_choice_event_id = "";
  presented_choices = [];
  handoff_at = at;
}

unfoldable pub take_over : Conversation → Time → Time → Conversation × Option Error
unfolding transition_to
take_over conv at moved_at =
    if not (is_human_active conv.state)
    then transition_to (prepared conv at) human_active moved_at
    else (prepared conv at, none)

abbrev pub signed : StaffReply → String
signed r =
    if is_empty (trim_space r.author_name)
    then r.text
    else trim_space r.author_name ++ ": " ++ r.text

abbrev pub outgoing : Conversation → String → Outgoing
outgoing conv text = record {
  request_own_contact = false;
  choice_token = "";
  provider = conv.provider;
  external_thread_id = conv.external_thread_id;
  text = text;
  choices = [];
  links = [];
}

abbrev pub recorded : Env → Conversation → String → Time → Message
recorded env conv text at = record {
  id = env.new_id 2;
  conversation_id = conv.id;
  direction = outbound;
  content_type = content_text;
  text = text;
  external_message_id = "";
  created_at = at;
}

-- The conversation after the send; it is with a person already.
abbrev pub answered : Conversation → Time → Conversation
answered conv at = record conv { updated_at = at; last_message_at = at; handoff_at = at }

abbrev pub save_answered : Env → World → Conversation → String → Outcome
save_answered env w conv text =
    let s = append w.store (recorded env conv text (env.clock 4)) in
    let (s', failure) = save s (answered conv (env.clock 4)) in
    record {
      world = with_store w s';
      failure = elim failure [
        | none ↦ none
        | some e ↦ some (wrapped "save the conversation after a colleague replied" e)
      ];
      attempted = true;
    }

-- The message is handed to the sender, and others work meanwhile.
abbrev pub handed : Env → World → Outgoing → World
handed env w msg = record w {
  store = env.during_send w.store;
  sends = record { message = msg; store = w.store } ∷ w.sends;
}

abbrev pub on_sent : Env → World → Conversation → String → Option Error → Outcome
on_sent env w conv text (some e) = record {
  world = w;
  failure = some (wrapped "send a colleague's reply" e);
  attempted = true;
}
on_sent env w conv text none = save_answered env w conv text

unfoldable pub send_signed :
    Env → (Outgoing → Option Error) → StaffReply → World → Conversation → Outcome
send_signed env sender r w conv =
    let msg = outgoing conv (signed r) in
    on_sent env (handed env w msg) conv (signed r) (sender msg)

abbrev pub on_saved :
    Env
    → (Outgoing → Option Error)
    → StaffReply
    → World
    → Conversation
    → Store × Option Error
    → Outcome
on_saved env sender r w conv (s, some e) =
    failed (with_store w s) (wrapped "pause the assistant before a staff reply" e)
on_saved env sender r w conv (s, none) = send_signed env sender r (with_store w s) conv

abbrev pub on_taken :
    Env → (Outgoing → Option Error) → StaffReply → World → Conversation × Option Error → Outcome
on_taken env sender r w (conv, some e) = failed w e
on_taken env sender r w (conv, none) = on_saved env sender r w conv (save w.store conv)

unfoldable pub relay_locked : Env → StaffReply → Conversation → World → Outcome
unfolding take_over save send_signed
relay_locked env r conv w = elim (env.senders conv.provider) [
  | none ↦ failed w (message ("no sender configured for " ++ conv.provider))
  | some sender ↦
      on_taken env sender r (retired env conv w) (take_over conv (env.clock 2) (env.clock 3))
]

unfoldable pub relay_claimed : Env → StaffReply → World → Outcome
unfolding under_lock relay_locked
relay_claimed env r w =
    under_lock env w r.conversation_id "find the conversation a colleague replied to"
      (relay_locked env r)

-- The deferred end of the claim: a send that was attempted is never repeated.
unfoldable pub settle : Env → StaffReply → Outcome → World
unfolding complete release
settle env r o =
    if o.attempted
    then with_store o.world
        (complete o.world.store r.event_id (env.new_id 0) (env.clock 5) (env.clock 6)).0
    else with_store o.world (release o.world.store r.event_id (env.new_id 0))

abbrev pub on_claimed : Env → StaffReply → World → Store × Result Bool → World × Option Error
on_claimed env r w (s, err e) = (with_store w s, some e)
on_claimed env r w (s, ok false) = (with_store w s, none)
on_claimed env r w (s, ok true) =
    let o = relay_claimed env r (with_store w s) in (settle env r o, o.failure)

-- `RelayStaffReply`
unfoldable pub relay_staff_reply : Env → StaffReply → World → World × Option Error
unfolding validate_reply relay_claimed settle claim
relay_staff_reply env r w = elim (validate_reply r) [
  | some e ↦ (w, some e)
  | none ↦
      if is_empty r.event_id
      then (let o = relay_claimed env r w in (o.world, o.failure))
      else on_claimed env r w (claim w.store r.event_id (env.new_id 0) (env.clock 0))
]
