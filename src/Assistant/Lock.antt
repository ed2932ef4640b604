-- ===== src/Assistant/Lock.antt =====
-- internal/application/assistant/interactions.go: the lock of a conversation that is stored.
use Prim.Native.String.{◌++◌}
use omnichannel_booking_assi.Prelude.{
  ℕ, String, Bool, true, false, Option, none, some, List, [], ◌∷◌, if◌then◌else◌,
}
use omnichannel_booking_assi.Prelude.Time.{Time}
use omnichannel_booking_assi.Domain.Errors.{
  Error, Result, ok, err, message, wrapped, delivery_busy, cause,
}
use omnichannel_booking_assi.Domain.Messaging.{Provider, Outgoing}
use omnichannel_booking_assi.Domain.Conversation.{Conversation, thread_key}
use omnichannel_booking_assi.Memory.Store.{Store}
use omnichannel_booking_assi.Memory.Conversations.{find_by_id}
use omnichannel_booking_assi.Memory.Deliveries.{claim, release}

-- The collaborators during one call. `clock n` and `new_id n` are the n-th time and identifier that the
-- call asks for. While the call waits for the lock, and while the provider works, other calls may change
-- the store: `waits` has, for each wait, what they do and the time after it, and ends when the call's own
-- time is up. `tracks_choices` says whose sender is a `choiceSender`.
pub record Env : Type 0 where
  pub clock : ℕ → Time
  pub new_id : ℕ → String
  pub digest : String → String
  pub waits : List (Time × (Store → Store))
  pub senders : Provider → Option (Outgoing → Option Error)
  pub during_send : Store → Store
  pub tracks_choices : Provider → Bool
  pub during_retire : Store → Store

-- A message handed to a sender, and the store at that moment.
pub record Sent : Type 0 where
  pub message : Outgoing
  pub store : Store

pub record World : Type 0 where
  pub store : Store
  pub sends : List Sent

-- How a call ends: the world, the error, and whether the provider was called.
pub record Outcome : Type 0 where
  pub world : World
  pub failure : Option Error
  pub attempted : Bool

abbrev pub is_busy : Error → Bool
is_busy e = elim (cause e) [ delivery_busy ↦ true | _ ↦ false ]

-- What one attempt at the lock gives: it is held, it failed, or it is to be tried again.
abbrev pub after_claim : Result Bool → Option (Option Error)
after_claim (ok true) = some none
after_claim (ok false) = none
after_claim (err e) = if is_busy e then none else some (some (wrapped "lock the conversation" e))

-- The loop of `lockConversation`, from a poll at a time on.
unfoldable pub lock :
    String → String → Time → List (Time × (Store → Store)) → Store → Store × Option Error
unfolding claim
lock name owner at [] s =
    let (s', r) = claim s name owner at in
    elim (after_claim r) [
      | some failure ↦ (s', failure)
      | none ↦ (s', some (message "context deadline exceeded"))
    ]
lock name owner at ((next, others) ∷ waits) s =
    let (s', r) = claim s name owner at in
    let rest = lock name owner next waits (others s') in
    elim (after_claim r) [ some failure ↦ (s', failure) | none ↦ rest ]

unfoldable pub lock_name : Env → Conversation → String
unfolding thread_key
lock_name env conv =
    "conversation-turn:" ++ env.digest (thread_key conv.provider conv.external_thread_id)

abbrev pub failed : World → Error → Outcome
failed w e = record { world = w; failure = some e; attempted = false }

abbrev pub with_store : World → Store → World
with_store w s = record w { store = s }

-- The deferred unlock.
abbrev pub unlocked : Env → Conversation → Outcome → Outcome
unlocked env conv o = record o {
  world = with_store o.world (release o.world.store (lock_name env conv) (env.new_id 1));
}

-- `lockStoredConversation`, and what is done under the lock with the conversation as it is then.
unfoldable pub under_lock :
    Env → World → String → String → (Conversation → World → Outcome) → Outcome
unfolding lock find_by_id release lock_name
under_lock env w conversation_id what body = elim (find_by_id w.store conversation_id) [
  | err e ↦ failed w (wrapped what e)
  | ok conv ↦
      let (s, failure) = lock (lock_name env conv) (env.new_id 1) (env.clock 1) env.waits w.store in
      elim failure [
        | some e ↦ failed (with_store w s) (wrapped what e)
        | none ↦ unlocked env conv (elim (find_by_id s conversation_id) [
          | err e ↦ failed (with_store w s) (wrapped what e)
          | ok fresh ↦ body fresh (with_store w s)
        ])
      ]
]
