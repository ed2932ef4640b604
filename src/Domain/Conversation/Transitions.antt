-- ===== src/Domain/Conversation/Transitions.antt =====
-- `TransitionTo`, `ObserveExternalReply` and `WaitingForHumanLongerThan` against the rules that the
-- package states.
use omnichannel_booking_assi.Prelude.{
  ℕ, ◌+◌, ◌≤◌, ◌<◌, ◌^◌, ◌≡◌, ◌≢◌, refl, ap, ◌↔◌, ◌⊎◌, String, Bool, true, false, not, ◌&&◌, inl,
  inr, Bool-cases, ◌||◌, ◌∙◌, Option, none, some, arith, eq_iff, eq_refl, if◌then◌else◌,
}
use omnichannel_booking_assi.Prelude.Int.{pos}
use omnichannel_booking_assi.Prelude.Time.{Time, is_zero, after}
use omnichannel_booking_assi.Domain.Errors.{Error, invalid_transition, wrapped}
use omnichannel_booking_assi.Domain.Conversation.{
  State, Conversation, assistant_active, human_requested, human_active, closed, other, same_state,
  transition_to, enter, try_each, allowed_transitions, is_assistant_active, is_human_requested,
  is_human_active, observe_external_reply, assistant_may_reply, waiting_for_human_longer_than,
}

-- Who may take over from whom.
infix 40 ◌⟶◌
pub data ◌⟶◌ : State → State → Type 0 where
  request : assistant_active ⟶ human_requested
  take_over : assistant_active ⟶ human_active
  close : assistant_active ⟶ closed
  pick_up : human_requested ⟶ human_active
  withdraw : human_requested ⟶ assistant_active
  close_request : human_requested ⟶ closed
  hand_back : human_active ⟶ assistant_active
  close_human : human_active ⟶ closed
  reopen : closed ⟶ assistant_active

ruleset moves =
    (request, take_over, close, pick_up, withdraw, close_request, hand_back, close_human, reopen)

pub same_state→eq : (s t : State) → same_state s t ≡ true → s ≡ t
same_state→eq assistant_active assistant_active h = refl
same_state→eq human_requested human_requested h = refl
same_state→eq human_active human_active h = refl
same_state→eq closed closed h = refl
same_state→eq (other a) (other b) h = ap other ((eq_iff a b).0 h)
same_state→eq s t h = cc

pub same_state_refl : (s : State) → same_state s s ≡ true
same_state_refl (other a) = eq_refl a
same_state_refl s = refl

-- What a move does: the state and the time of the update, the time of the resumption if the assistant
-- is back in charge, and the time of the handover if a colleague was asked for or has taken over.
abbrev pub moved : Conversation → State → Time → Conversation
moved c next at = record c {
  state = next;
  updated_at = at;
  assistant_resumed_at = if is_assistant_active next then at else c.assistant_resumed_at;
  handoff_at = if is_human_requested next || is_human_active next then at else c.handoff_at;
}

enter-moved : (next : State) (at : Time) (c : Conversation) → enter next at c ≡ moved c next at
unfolding enter
enter-moved assistant_active at c = refl
enter-moved human_requested at c = refl
enter-moved human_active at c = refl
enter-moved closed at c = refl
enter-moved (other s) at c = refl

-- `transition_to` with the state of the conversation as an argument.
abbrev attempt : State → State → Time → Conversation → Conversation × Option Error
attempt from next at c =
    if same_state from next then (c, none) else try_each (allowed_transitions from) next at c

attempt_move :
    {from next : State} (at : Time) (c : Conversation)
    → from ⟶ next
    → attempt from next at c ≡ (enter next at c, none)
unfolding transition_to
attempt_move at c request = refl
attempt_move at c take_over = refl
attempt_move at c close = refl
attempt_move at c pick_up = refl
attempt_move at c withdraw = refl
attempt_move at c close_request = refl
attempt_move at c hand_back = refl
attempt_move at c close_human = refl
attempt_move at c reopen = refl

attempt_refused :
    (from next : State) (at : Time) (c : Conversation)
    → from ≢ next
    → ¬ (from ⟶ next)
    → attempt from next at c ≡ (c, some (wrapped "to" invalid_transition))
unfolding transition_to
attempt_refused assistant_active next at c h n = ground (arith, request, take_over, close)
attempt_refused human_requested next at c h n = ground (arith, pick_up, withdraw, close_request)
attempt_refused human_active next at c h n = ground (arith, hand_back, close_human)
attempt_refused closed next at c h n = ground (arith, reopen)
attempt_refused (other x) (other y) at c h n = ground (arith, eq_iff x y)
attempt_refused (other x) next at c h n = refl

abbrev allowed : State → State → Bool
allowed assistant_active human_requested = true
allowed assistant_active human_active = true
allowed assistant_active closed = true
allowed human_requested human_active = true
allowed human_requested assistant_active = true
allowed human_requested closed = true
allowed human_active assistant_active = true
allowed human_active closed = true
allowed closed assistant_active = true
allowed s t = false

allowed→move : (s t : State) → allowed s t ≡ true → s ⟶ t
allowed→move assistant_active human_requested h = request
allowed→move assistant_active human_active h = take_over
allowed→move assistant_active closed h = close
allowed→move human_requested human_active h = pick_up
allowed→move human_requested assistant_active h = withdraw
allowed→move human_requested closed h = close_request
allowed→move human_active assistant_active h = hand_back
allowed→move human_active closed h = close_human
allowed→move closed assistant_active h = reopen
allowed→move s t h = cc

move→allowed : {s t : State} → s ⟶ t → allowed s t ≡ true
move→allowed request = refl
move→allowed take_over = refl
move→allowed close = refl
move→allowed pick_up = refl
move→allowed withdraw = refl
move→allowed close_request = refl
move→allowed hand_back = refl
move→allowed close_human = refl
move→allowed reopen = refl

-- `TransitionTo` follows the rules and no others: to the current state it does nothing, along an
-- edge of the diagram it moves and records the times, and in all other cases it reports an invalid
-- transition and changes nothing.
pub transition_to_lem :
    (c : Conversation) (next : State) (at : Time)
    → (c.state ≡ next) × (transition_to c next at ≡ (c, none))
      ⊎ (c.state ⟶ next) × (transition_to c next at ≡ (moved c next at, none))
      ⊎ (c.state ≢ next)
        × ¬ (c.state ⟶ next)
        × (transition_to c next at ≡ (c, some (wrapped "to" invalid_transition)))
unfolding transition_to
transition_to_lem c next at = elim (Bool-cases (same_state c.state next)) [
  | inl e ↦ inl (same_state→eq c.state next e, rw (e, transition_to))
  | inr ne ↦
      let differ : c.state ≢ next = λ e. ground (arith, same_state_refl next) in
      elim (Bool-cases (allowed c.state next)) [
        | inl may ↦
            let h = allowed→move c.state next may in
            inr (inl (h, attempt_move at c h ∙ ap (λ d. (d, none)) (enter-moved next at c)))
        | inr may ↦
            let stay : ¬ (c.state ⟶ next) = λ h. ground (arith, move→allowed h) in
            inr (inr (differ, stay, attempt_refused c.state next at c differ stay))
      ]
]

-- From each of the four states one move at most puts the assistant back in charge: no conversation
-- is stuck with nobody answering.
pub transition_to-assistant :
    (c : Conversation) (at : Time)
    → ((s : String) → c.state ≢ other s)
    → ((transition_to c assistant_active at).1 ≡ none)
      × (assistant_may_reply (transition_to c assistant_active at).0 ≡ true)
unfolding transition_to assistant_may_reply
transition_to-assistant c at h = go c.state refl
  where
    go :
        (s : State)
        → c.state ≡ s
        → ((transition_to c assistant_active at).1 ≡ none)
          × (assistant_may_reply (transition_to c assistant_active at).0 ≡ true)
    go (other x) e = absurd (h x e)
    go s e = (rw (e, transition_to), rw (e, transition_to))

-- A reply that a colleague sent after the last resumption, or with no resumption recorded, takes
-- over: the assistant may not answer, whatever it had prepared is dropped, and the revision (below
-- 2 ^ 64) is another. One that was sent before the resumption, or at its instant, changes nothing.
pub observe_external_reply_lem :
    (c : Conversation) (sent_at received_at : Time)
    → c.external_reply_revision < 2 ^ 64
    → let d = observe_external_reply c sent_at received_at in
      ((c.assistant_resumed_at ≡ 0) ⊎ (c.assistant_resumed_at < sent_at))
        × (assistant_may_reply d ≡ false)
        × (d.draft ≡ none)
        × (d.booking_change ≡ none)
        × (d.external_reply_revision ≢ c.external_reply_revision)
      ⊎ (0 < c.assistant_resumed_at) × (sent_at ≤ c.assistant_resumed_at) × (d ≡ c)
unfolding observe_external_reply assistant_may_reply
observe_external_reply_lem c sent_at received_at b =
    elim (Bool-cases
      (not (is_zero c.assistant_resumed_at) && not (after sent_at c.assistant_resumed_at))) [
        | inl old ↦ inr (ground arith, ground arith, ground arith)
        | inr new ↦ inl (ground arith, ground arith, ground arith, ground arith, ground arith)
      ]

-- A request for a colleague lapses exactly when nobody has picked it up within the time allowed, or
-- when the time of the request was never recorded.
pub waiting_for_human_longer_than_iff :
    (c : Conversation) (d : ℕ) (now : Time)
    → (waiting_for_human_longer_than c (pos d) now ≡ true)
      ↔ ((c.state ≡ human_requested) × ((c.handoff_at ≡ 0) ⊎ (c.handoff_at + d < now)))
unfolding waiting_for_human_longer_than
waiting_for_human_longer_than_iff c d now = (λ h. ground arith, λ h. ground arith)
