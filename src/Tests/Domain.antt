-- ===== src/Tests/Domain.antt =====
-- Tests of internal/domain.
use omnichannel_booking_assi.Prelude.{
  ℕ, ◌+◌, ◌≤◌, ◌<◌, ◌^◌, ◌≡◌, ◌≢◌, refl, ◌↔◌, ◌⊎◌, String, Bool, true, false, Option, none, some,
  List, [], ◌∷◌, arith, All, ◌==◌, if◌then◌else◌, Bool-cases, inl, inr,
}
use omnichannel_booking_assi.Prelude.Int.{pos}
use omnichannel_booking_assi.Prelude.Time.{hour}
use omnichannel_booking_assi.Prelude.Colon.{NoColon}
use omnichannel_booking_assi.Domain.Errors.{ok, invalid_transition, wrapped}
use omnichannel_booking_assi.Domain.Messaging.{Envelope, Choice, telegram, content_text}
use omnichannel_booking_assi.Domain.Envelope.{dedupe_key, reply}
use omnichannel_booking_assi.Domain.Envelope.Keys.{dedupe_key_inj}
use omnichannel_booking_assi.Domain.Outgoing.{with_choices}
use omnichannel_booking_assi.Domain.Outgoing.Menu.{IsOffered, with_choices-IsOffered}
use omnichannel_booking_assi.Domain.Phone.{normalize_phone}
use omnichannel_booking_assi.Domain.Phone.Normal.{IsE164, normalize_phone_idem}
use omnichannel_booking_assi.Domain.Booking.{
  Draft, ChangeDraft, reschedule, validate_draft, validate_request, to_request,
}
use omnichannel_booking_assi.Domain.Booking.Confirm.{validate_request-to_request}
use omnichannel_booking_assi.Domain.Conversation.{
  closed, transition_to, observe_external_reply, assistant_may_reply,
}
use omnichannel_booking_assi.Domain.Conversation.Transitions.{
  ◌⟶◌, moved, transition_to_lem, observe_external_reply_lem,
}
use omnichannel_booking_assi.Tests.Samples.{thread}

abbrev envelope : Envelope
envelope = record {
  provider = telegram;
  external_message_id = "5";
  choice_message_id = "";
  external_user_id = "u";
  external_thread_id = "7";
  sent_at = 1;
  received_at = 2;
  sender = record { display_name = "Ani"; language = "hy"; username = "" };
  content = record { type = content_text; text = "hi"; audio = none; description = "" };
}

abbrev draft : Draft
draft = record {
  idempotency_key = "k";
  service_ids = "s1" ∷ [];
  service_names = "Cut" ∷ [];
  price_label = "";
  staff_id = "m1";
  staff_name = "Mara";
  starts_at = 2000;
  duration = pos hour;
  phone = "+37491123456";
  customer_name = "Ani";
  awaiting_phone_verification = false;
  prepared_at = 900;
  prepared_from_message_id = "5";
}

telegram_plain : NoColon telegram
telegram_plain = ground arith

seven_plain : NoColon "7"
seven_plain = ground arith

dedupe_key_inj_example :
    let again = record envelope { sent_at = 3 } in
    (envelope.provider ≡ again.provider)
    × (envelope.external_message_id ≡ again.external_message_id)
    × ((envelope.provider ≢ telegram) ⊎ (envelope.external_thread_id ≡ again.external_thread_id))
unfolding dedupe_key
dedupe_key_inj_example =
    dedupe_key_inj envelope (record envelope { sent_at = 3 }) telegram_plain telegram_plain
      (λ _. seven_plain) (λ _. seven_plain) refl

abbrev proposed : List Choice
proposed =
    record { label = " Cut " }
    ∷ record { label = "" }
    ∷ record { label = "Cut" }
    ∷ record { label = "Colour" }
    ∷ []

-- The labels are trimmed, the empty one and the repeated one left out.
proposed_menu :
    (with_choices (reply envelope "Which?") proposed).choices
    ≡ record { label = "Cut" } ∷ record { label = "Colour" } ∷ []
unfolding with_choices omnichannel_booking_assi.Domain.Outgoing.keep_choices
    omnichannel_booking_assi.Prelude.Spaces.trim_space
    omnichannel_booking_assi.Domain.Outgoing.seen_in
proposed_menu = refl

with_choices-IsOffered_example :
    All (IsOffered (with_choices (reply envelope "Which?") proposed).choices) proposed
with_choices-IsOffered_example = with_choices-IsOffered (reply envelope "Which?") proposed

-- A library that knows one number.
abbrev known_number : String → Option String
known_number s = if s == "+37491123456" then some "+37491123456" else none

number_shape : IsE164 "+37491123456"
number_shape = ground arith

known_number-IsE164 :
    (s p : String) → known_number s ≡ some p → IsE164 p × (known_number p ≡ some p)
known_number-IsE164 s p h = elim (Bool-cases (s == "+37491123456")) [
  | inl e ↦ let same : "+37491123456" ≡ p = ground arith in rw (← same) (number_shape, refl)
  | inr e ↦ absurd (ground arith)
]

-- Spaces, dashes and the exit code are ways to write one number.
normalize_phone_same : normalize_phone known_number "00374 91 12-34-56" ≡ ok "+37491123456"
unfolding normalize_phone omnichannel_booking_assi.Prelude.Spaces.trim_space
    omnichannel_booking_assi.Domain.Phone.has_prefix
normalize_phone_same = refl

normalize_phone_idem_example : normalize_phone known_number "+37491123456" ≡ ok "+37491123456"
normalize_phone_idem_example =
    normalize_phone_idem known_number "00374 91 12-34-56" "+37491123456" known_number-IsE164
      normalize_phone_same

draft_valid : validate_draft draft 1000 ≡ none
unfolding validate_draft
draft_valid = refl

-- A draft is too old after an hour.
draft_expires : validate_draft draft (901 + hour) ≢ none
unfolding validate_draft
draft_expires = λ h. cc

validate_request-to_request_example :
    let r = to_request draft "u1" in
    (validate_request r 1000 ≡ none)
    × (r.idempotency_key ≡ draft.idempotency_key)
    × (r.service_ids ≡ draft.service_ids)
    × (r.staff_id ≡ draft.staff_id)
    × (r.starts_at ≡ draft.starts_at)
    × (r.phone ≡ draft.phone)
validate_request-to_request_example =
    validate_request-to_request draft "u1" 1000 draft_valid (λ e. cc)

abbrev move : ChangeDraft
move = record {
  kind = reschedule;
  reference = "x1";
  new_start = 2500;
  prepared_at = 900;
  prepared_from_message_id = "5";
}

transition_to_lem_example :
    (thread.state ≡ closed) × (transition_to thread closed 9 ≡ (thread, none))
    ⊎ (thread.state ⟶ closed) × (transition_to thread closed 9 ≡ (moved thread closed 9, none))
    ⊎ (thread.state ≢ closed)
      × ¬ (thread.state ⟶ closed)
      × (transition_to thread closed 9 ≡ (thread, some (wrapped "to" invalid_transition)))
transition_to_lem_example = transition_to_lem thread closed 9

observe_external_reply_lem_example :
    let c = record thread { assistant_resumed_at = 5 } in
    let d = observe_external_reply c 8 9 in
    ((c.assistant_resumed_at ≡ 0) ⊎ (c.assistant_resumed_at < 8))
      × (assistant_may_reply d ≡ false)
      × (d.draft ≡ none)
      × (d.booking_change ≡ none)
      × (d.external_reply_revision ≢ c.external_reply_revision)
    ⊎ (0 < c.assistant_resumed_at) × (8 ≤ c.assistant_resumed_at) × (d ≡ c)
observe_external_reply_lem_example =
    observe_external_reply_lem (record thread { assistant_resumed_at = 5 }) 8 9 (omega arith)
