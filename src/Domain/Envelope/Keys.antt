-- ===== src/Domain/Envelope/Keys.antt =====
-- The keys that the stores use tell apart what they should.
use Prim.Native.String.{◌++◌}
use omnichannel_booking_assi.Prelude.{
  ◌≡◌, ◌≢◌, sym, ◌∙◌, ◌⊎◌, inl, inr, String, arith, eq_iff, ◌==◌, str_cases, Bool-cases,
  if◌then◌else◌,
}
use omnichannel_booking_assi.Prelude.Colon.{NoColon, colon_inj}
use omnichannel_booking_assi.Domain.Messaging.{Envelope, telegram}
use omnichannel_booking_assi.Domain.Envelope.{dedupe_key}
use omnichannel_booking_assi.Domain.Conversation
use omnichannel_booking_assi.Domain.Conversation.{Conversation}

-- What follows the provider in a deduplication key.
abbrev rest : Envelope → String
rest e =
    if e.provider == telegram
    then e.external_thread_id ++ ":" ++ e.external_message_id
    else e.external_message_id

dedupe_key-rest : (e : Envelope) → dedupe_key e ≡ e.provider ++ ":" ++ rest e
unfolding dedupe_key
dedupe_key-rest e = elim (Bool-cases (e.provider == telegram)) [ inl h ↦ rw h | inr h ↦ rw h ]

rest-telegram :
    (e : Envelope)
    → e.provider ≡ telegram
    → rest e ≡ e.external_thread_id ++ ":" ++ e.external_message_id
rest-telegram e h = rw ((eq_iff e.provider telegram).1 h)

rest_other : (e : Envelope) → e.provider ≢ telegram → rest e ≡ e.external_message_id
rest_other e h = ground (arith, eq_iff e.provider telegram)

-- Two messages with one deduplication key are one message of one provider, and on Telegram, whose
-- message ids count within a chat, of one chat; no provider's name has a colon, and no Telegram
-- chat's id.
pub dedupe_key_inj :
    (e f : Envelope)
    → NoColon e.provider
    → NoColon f.provider
    → (e.provider ≡ telegram → NoColon e.external_thread_id)
    → (f.provider ≡ telegram → NoColon f.external_thread_id)
    → dedupe_key e ≡ dedupe_key f
    → (e.provider ≡ f.provider)
      × (e.external_message_id ≡ f.external_message_id)
      × ((e.provider ≢ telegram) ⊎ (e.external_thread_id ≡ f.external_thread_id))
dedupe_key_inj e f he hf te tf h =
    let (same, tail) =
      colon_inj e.provider f.provider (rest e) (rest f) he hf
        (sym (dedupe_key-rest e) ∙ h ∙ dedupe_key-rest f) in
    elim (str_cases e.provider telegram) [
      | inl tel ↦
          let tel' : f.provider ≡ telegram = sym same ∙ tel in
          let (threads, messages) =
            colon_inj e.external_thread_id f.external_thread_id e.external_message_id
              f.external_message_id (te tel) (tf tel')
              (sym (rest-telegram e tel) ∙ tail ∙ rest-telegram f tel') in
          (same, messages, inr threads)
      | inr ne ↦ (same, sym (rest_other e ne) ∙ tail ∙ rest_other f (λ g. ne (same ∙ g)), inl ne)
    ]

-- Conversations of one key are on one thread of one provider.
pub key-inj :
    (c d : Conversation)
    → NoColon c.provider
    → NoColon d.provider
    → Conversation.key c ≡ Conversation.key d
    → (c.provider ≡ d.provider) × (c.external_thread_id ≡ d.external_thread_id)
unfolding Conversation.key
key-inj c d hc hd h =
    colon_inj c.provider d.provider c.external_thread_id d.external_thread_id hc hd h
