-- ===== src/Domain/Conversation.antt =====
-- internal/domain/conversation: one exchange with one customer, and who is answering it.
pub mod Transitions
use Prim.Native.String.{◌++◌}
use omnichannel_booking_assi.Prelude.{
  ℕ, ◌+◌, ◌%◌, ◌^◌, String, Bool, true, false, not, ◌&&◌, ◌||◌, Option, none, some, List, [], ◌∷◌,
  ◌==◌, if◌then◌else◌,
}
use omnichannel_booking_assi.Prelude.Int.{ℤ, ltb_ℤ}
use omnichannel_booking_assi.Prelude.Time.{Time, Duration, is_zero, after, sub}
use omnichannel_booking_assi.Domain.Errors.{Error, invalid_transition, wrapped}
use omnichannel_booking_assi.Domain.Messaging.{Provider, ContentType}
use omnichannel_booking_assi.Domain.Booking.{Draft, ChangeDraft}

-- `other` is any text that is none of the four constants, the zero value "" included.
pub data State : Type 0 where
  assistant_active human_requested human_active closed : State
  other : String → State

pub record Conversation : Type 0 where
  pub preferred_language : String
  pub id : String
  pub customer_id : String
  pub provider : Provider
  pub external_thread_id : String
  pub state : State
  -- The int64 counter as its bit pattern, below 2 ^ 64.
  pub external_reply_revision : ℕ
  pub assistant_resumed_at : Time
  pub draft : Option Draft
  pub handoff_at : Time
  pub booking_change : Option ChangeDraft
  pub created_at : Time
  pub updated_at : Time
  pub last_message_at : Time
  pub last_choice_message_id : String
  pub pending_choice_message_id : String
  pub pending_choice_event_id : String
  pub presented_choices : List String
  pub catalogue_category : String
  pub catalogue_service_id : String
  pub catalogue_staff_id : String
  pub catalogue_page : ℤ
  pub catalogue_phase : String
  pub catalogue_date : String
  pub reminder_opt_in : Bool

-- `Key(provider, externalThreadID)`
unfoldable pub thread_key : Provider → String → String
thread_key provider external_thread_id = provider ++ ":" ++ external_thread_id

-- `Conversation.Key`
unfoldable pub key : Conversation → String
unfolding thread_key
key c = thread_key c.provider c.external_thread_id

-- `==` on `State`
abbrev pub same_state : State → State → Bool
same_state assistant_active assistant_active = true
same_state human_requested human_requested = true
same_state human_active human_active = true
same_state closed closed = true
same_state (other s) (other t) = s == t
same_state _ _ = false

abbrev pub is_assistant_active : State → Bool
is_assistant_active assistant_active = true
is_assistant_active _ = false

abbrev pub is_human_requested : State → Bool
is_human_requested human_requested = true
is_human_requested _ = false

abbrev pub is_human_active : State → Bool
is_human_active human_active = true
is_human_active _ = false

unfoldable pub waiting_for_human_longer_than : Conversation → Duration → Time → Bool
waiting_for_human_longer_than c d now =
    if not (is_human_requested c.state)
    then false
    else if is_zero c.handoff_at
    then true
    else ltb_ℤ d (sub now c.handoff_at)

unfoldable pub assistant_may_reply : Conversation → Bool
assistant_may_reply c = is_assistant_active c.state

-- The map of that name; a state that is no key of it has the nil slice.
unfoldable pub allowed_transitions : State → List State
allowed_transitions assistant_active = human_requested ∷ human_active ∷ closed ∷ []
allowed_transitions human_requested = human_active ∷ assistant_active ∷ closed ∷ []
allowed_transitions human_active = assistant_active ∷ closed ∷ []
allowed_transitions closed = assistant_active ∷ []
allowed_transitions (other _) = []

-- The body of the loop's `if`.
enter : State → Time → Conversation → Conversation
enter next at c =
    let moved = record c { state = next; updated_at = at } in
    let resumed =
      if is_assistant_active next then record moved { assistant_resumed_at = at } else moved in
    if is_human_requested next || is_human_active next
    then record resumed { handoff_at = at }
    else resumed

-- The loop over the allowed states.
try_each : List State → State → Time → Conversation → Conversation × Option Error
unfolding enter
try_each [] next at c = (c, some (wrapped "to" invalid_transition))
try_each (allowed ∷ rest) next at c =
    if same_state allowed next then (enter next at c, none) else try_each rest next at c

-- `TransitionTo`: the conversation afterwards, and the error.
unfoldable pub transition_to : Conversation → State → Time → Conversation × Option Error
unfolding try_each allowed_transitions
transition_to c next at =
    if same_state c.state next then (c, none) else try_each (allowed_transitions c.state) next at c

-- `c.ExternalReplyRevision++`
abbrev pub next_revision : ℕ → ℕ
next_revision n = (n + 1) % 2 ^ 64

unfoldable pub observe_external_reply : Conversation → Time → Time → Conversation
observe_external_reply c sent_at received_at =
    if not (is_zero c.assistant_resumed_at) && not (after sent_at c.assistant_resumed_at)
    then c
    else record c {
      external_reply_revision = next_revision c.external_reply_revision;
      state = human_active;
      handoff_at = received_at;
      updated_at = received_at;
      last_message_at = received_at;
      last_choice_message_id = "";
      pending_choice_message_id = "";
      pending_choice_event_id = "";
      presented_choices = [];
      draft = none;
      booking_change = none;
    }

pub data Direction : Type 0 where
  inbound outbound : Direction
  other_direction : String → Direction

pub record Message : Type 0 where
  pub id : String
  pub conversation_id : String
  pub direction : Direction
  pub content_type : ContentType
  pub text : String
  pub external_message_id : String
  pub created_at : Time

abbrev pub is_outbound : Direction → Bool
is_outbound outbound = true
is_outbound _ = false
