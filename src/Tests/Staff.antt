-- ===== src/Tests/Staff.antt =====
-- Tests of a colleague's reply: the takeover is stored, the reply sent, and the event finished.
use omnichannel_booking_assi.Prelude.{◌≡◌, refl, ◌⊎◌, String, false, none, some, List, [], ◌∷◌}
use omnichannel_booking_assi.Memory.Conversations.{save}
use omnichannel_booking_assi.Assistant.Lock.{Env, World}
use omnichannel_booking_assi.Assistant.Staff.{StaffReply, relay_staff_reply}
use omnichannel_booking_assi.Assistant.Staff.Takeover.{Told, IsRepeat, relay_staff_reply-Told}
use omnichannel_booking_assi.Assistant.Commands.Guard.{Guards, record_external_reply-Guards}
use omnichannel_booking_assi.Memory.Conversations.{record_external_reply, target, find_by_id}
use omnichannel_booking_assi.Domain.Errors.{ok}
use omnichannel_booking_assi.Prelude.Dict.{lookup}
use omnichannel_booking_assi.Prelude.{◌<◌, ◌^◌, is_empty, arith}
use omnichannel_booking_assi.Tests.Samples.{reply_message, empty_store, thread}

abbrev staff_env : Env
staff_env = record {
  clock = λ n. n;
  new_id = λ n. "id";
  digest = λ text. text;
  waits = [];
  senders = λ provider. some (λ message. none);
  during_send = λ s. s;
  tracks_choices = λ provider. false;
  during_retire = λ s. s;
}

abbrev reply : StaffReply
reply = record {
  conversation_id = "c1";
  author_name = " Ani ";
  text = "We have a place at ten.";
  event_id = "e1";
}

abbrev before : World
before = record { store = (save empty_store thread).0; sends = [] }

abbrev texts : World → List String
texts w = elim w.sends [ [] ↦ [] | sent ∷ _ ↦ sent.message.text ∷ [] ]

replied :
    (texts (relay_staff_reply staff_env reply before).0 ≡ "Ani: We have a place at ten." ∷ [])
    × ((relay_staff_reply staff_env reply before).1 ≡ none)
unfolding relay_staff_reply omnichannel_booking_assi.Prelude.Spaces.trim_space
    omnichannel_booking_assi.Prelude.Dict.lookup omnichannel_booking_assi.Prelude.Dict.insert
    omnichannel_booking_assi.Domain.Conversation.key
    omnichannel_booking_assi.Memory.Transcript.append
    omnichannel_booking_assi.Memory.Transcript.is_recorded
    omnichannel_booking_assi.Prelude.Dict.delete omnichannel_booking_assi.Prelude.Dict.retain
replied = (refl, refl)

repeated :
    let w = (relay_staff_reply staff_env reply before).0 in
    relay_staff_reply staff_env reply w ≡ (w, none)
unfolding relay_staff_reply omnichannel_booking_assi.Prelude.Spaces.trim_space
    omnichannel_booking_assi.Prelude.Dict.lookup omnichannel_booking_assi.Prelude.Dict.insert
    omnichannel_booking_assi.Domain.Conversation.key
    omnichannel_booking_assi.Memory.Transcript.append
    omnichannel_booking_assi.Memory.Transcript.is_recorded
    omnichannel_booking_assi.Prelude.Dict.delete omnichannel_booking_assi.Prelude.Dict.retain
repeated = refl

relay_staff_reply-Told_example :
    Told reply
      (relay_staff_reply staff_env reply before).0
      (relay_staff_reply staff_env reply before).1
    ⊎ ((relay_staff_reply staff_env reply before).0.sends ≡ [])
      × ((relay_staff_reply staff_env reply before).1 ≡ none)
      × IsRepeat staff_env reply before
relay_staff_reply-Told_example = relay_staff_reply-Told staff_env reply before refl

-- The conversation that a turn has loaded.
loaded : target before.store thread ≡ thread
unfolding save lookup omnichannel_booking_assi.Prelude.Dict.insert
    omnichannel_booking_assi.Domain.Conversation.key
loaded = refl

loaded_stored :
    find_by_id before.store (target before.store thread).id ≡ ok (target before.store thread)
unfolding save lookup find_by_id omnichannel_booking_assi.Prelude.Dict.insert
    omnichannel_booking_assi.Domain.Conversation.key
loaded_stored = refl

loaded_named : is_empty (target before.store thread).provider ≡ false
unfolding save lookup omnichannel_booking_assi.Prelude.Dict.insert
    omnichannel_booking_assi.Domain.Conversation.key
loaded_named = refl

loaded_bound : (target before.store thread).external_reply_revision < 2 ^ 64
loaded_bound = rw loaded (omega arith)

record_external_reply-Guards_example :
    Guards
      (record_external_reply before.store thread reply_message 5 6).0
      (target before.store thread)
record_external_reply-Guards_example =
    record_external_reply-Guards before.store thread reply_message 5 6 loaded_named loaded_bound
      loaded_stored
