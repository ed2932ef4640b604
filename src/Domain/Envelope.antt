-- ===== src/Domain/Envelope.antt =====
-- The methods of `Envelope`, `ExternalReply` and `Outgoing` in internal/domain/messaging, but for the
-- buttons of an outgoing message.
pub mod Keys
use Prim.Native.String.{◌++◌}
use omnichannel_booking_assi.Prelude.{
  String, Bool, true, false, not, ◌||◌, Option, none, some, [], ◌∷◌, is_empty, ◌==◌, if◌then◌else◌,
}
use omnichannel_booking_assi.Prelude.Time.{is_zero}
use omnichannel_booking_assi.Domain.Errors.{
  Error, invalid_envelope, delivery_uncertain, delivery_rejected, wrapped, switch, cause,
}
use omnichannel_booking_assi.Domain.Messaging.{
  Provider, Envelope, ExternalReply, Outgoing, telegram, whatsapp, instagram, messenger,
}

unfoldable pub validate : Envelope → Option Error
validate e = switch (
    (is_empty e.provider, wrapped "provider is empty" invalid_envelope)
    ∷ (is_empty e.external_message_id, wrapped "external message id is empty" invalid_envelope)
    ∷ (is_empty e.external_user_id, wrapped "external user id is empty" invalid_envelope)
    ∷ (is_empty e.external_thread_id, wrapped "external thread id is empty" invalid_envelope)
    ∷ (is_empty e.content.type, wrapped "content type is empty" invalid_envelope)
    ∷ [])

unfoldable pub dedupe_key : Envelope → String
dedupe_key e =
    if e.provider == telegram
    then e.provider ++ ":" ++ e.external_thread_id ++ ":" ++ e.external_message_id
    else e.provider ++ ":" ++ e.external_message_id

-- `Envelope.Reply`: a message to the same conversation.
unfoldable pub reply : Envelope → String → Outgoing
reply e text = record {
  request_own_contact = false;
  choice_token = "";
  provider = e.provider;
  external_thread_id = e.external_thread_id;
  text = text;
  choices = [];
  links = [];
}

unfoldable pub validate_outgoing : Outgoing → Option Error
validate_outgoing o = switch (
    (is_empty o.provider, wrapped "provider is empty" invalid_envelope)
    ∷ (is_empty o.external_thread_id, wrapped "external thread id is empty" invalid_envelope)
    ∷ (is_empty o.text, wrapped "text is empty" invalid_envelope)
    ∷ [])

abbrev pub has_staff_inbox : Provider → Bool
has_staff_inbox p = p == whatsapp || p == instagram || p == messenger || p == telegram

unfoldable pub validate_external_reply : ExternalReply → Option Error
validate_external_reply r =
    if not (has_staff_inbox r.provider)
      || is_empty r.external_message_id
      || is_empty r.external_thread_id
      || is_empty r.content.type
      || is_zero r.sent_at
      || is_zero r.received_at
    then some (wrapped "invalid external staff reply" invalid_envelope)
    else none

-- `TerminalDelivery`: `errors.Is` looks through the wrapping.
abbrev is_terminal : Error → Bool
is_terminal delivery_uncertain = true
is_terminal delivery_rejected = true
is_terminal _ = false

unfoldable pub terminal_delivery : Error → Bool
terminal_delivery e = is_terminal (cause e)
