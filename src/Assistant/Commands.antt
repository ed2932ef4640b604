-- ===== src/Assistant/Commands.antt =====
-- internal/application/assistant: `RunStaffCommand` of relay.go, `Resume` of handoff.go, and
-- `checkExternalReply` of external_reply.go.
pub mod Guard
use omnichannel_booking_assi.Prelude.{
  String, false, not, Option, none, some, eqb, is_empty, if◌then◌else◌,
}
use omnichannel_booking_assi.Domain.Errors.{
  Error, Result, ok, err, message, wrapped, external_reply_conflict,
}
use omnichannel_booking_assi.Domain.Conversation.{
  Conversation, State, assistant_active, human_active, transition_to, is_assistant_active,
}
use omnichannel_booking_assi.Memory.Store.{Store}
use omnichannel_booking_assi.Memory.Conversations.{save, find_by_id}
use omnichannel_booking_assi.Assistant.Lock.{Env, World, Outcome, failed, with_store, under_lock}

-- `StaffCommand`
pub data StaffCommand : Type 0 where
  resume take : StaffCommand
  other_command : String → StaffCommand

abbrev pub next_state : StaffCommand → Option State
next_state resume = some assistant_active
next_state take = some human_active
next_state (other_command s) = none

abbrev pub on_moved : World → Conversation × Option Error → Outcome
on_moved w (conv, some e) = failed w e
on_moved w (conv, none) =
    let (s, failure) = save w.store conv in
    record {
      world = with_store w s;
      failure = elim failure [ none ↦ none | some e ↦ some (wrapped "save the conversation" e) ];
      attempted = false;
    }

unfoldable pub command_locked : Env → StaffCommand → Conversation → World → Outcome
unfolding transition_to save
command_locked env command conv w = elim (next_state command) [
  | none ↦ failed w (message "there is no such command")
  | some next ↦ on_moved w (transition_to conv next (env.clock 2))
]

-- What the staff chat is told.
abbrev pub command_answer : StaffCommand → String
command_answer resume = "The assistant is answering this customer again."
command_answer _ = "Noted, you are handling this one. The assistant will stay out of it."

-- `RunStaffCommand`
unfoldable pub run_staff_command : Env → StaffCommand → String → World → World × Result String
unfolding under_lock command_locked
run_staff_command env command conversation_id w =
    let o = under_lock env w conversation_id "find the conversation" (command_locked env command) in
    elim o.failure [ some e ↦ (o.world, err e) | none ↦ (o.world, ok (command_answer command)) ]

-- `Resume`
unfoldable pub resume_conversation : Env → String → World → World × Option Error
unfolding find_by_id transition_to save
resume_conversation env conversation_id w = elim (find_by_id w.store conversation_id) [
  | err e ↦ (w, some e)
  | ok conv ↦
      if is_assistant_active conv.state
      then (w, none)
      else (let (moved, failure) = transition_to conv assistant_active (env.clock 0) in
          elim failure [
            | some e ↦ (w, some e)
            | none ↦ (let (s, failed_save) = save w.store moved in (with_store w s, failed_save))
          ])
]

-- `checkExternalReply`
unfoldable pub check_external_reply : Store → Conversation → Option Error
unfolding find_by_id
check_external_reply s conv = if is_empty conv.provider then none else elim (find_by_id s conv.id) [
  | err e ↦ some (wrapped "check whether staff have replied" e)
  | ok current ↦
      if not (eqb current.external_reply_revision conv.external_reply_revision)
      then some external_reply_conflict
      else none
]
