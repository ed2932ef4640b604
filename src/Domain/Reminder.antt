-- ===== src/Domain/Reminder.antt =====
-- internal/domain/reminder/reminder.go: a delayed notification of one version of an appointment.
use omnichannel_booking_assi.Prelude.{String, Bool, true, false, not, Option, [], ◌∷◌, is_empty}
use omnichannel_booking_assi.Prelude.Time.{Time, is_zero}
use omnichannel_booking_assi.Domain.Errors.{Error, message, switch}
use omnichannel_booking_assi.Domain.Messaging.{Provider}

-- `other` is any text that is none of the four constants, the zero value "" included.
pub data Status : Type 0 where
  scheduled delivering sent skipped : Status
  other : String → Status

pub record Reminder : Type 0 where
  pub id : String
  pub booking_external_id : String
  pub customer_id : String
  pub conversation_id : String
  pub provider : Provider
  pub external_thread_id : String
  pub language : String
  pub expected_starts_at : Time
  pub due_at : Time
  pub status : Status
  pub created_at : Time
  pub claim_id : String
  pub claim_expires : Time
  pub finished_at : Time

abbrev pub is_scheduled : Status → Bool
is_scheduled scheduled = true
is_scheduled _ = false

abbrev pub is_delivering : Status → Bool
is_delivering delivering = true
is_delivering _ = false

-- `status == StatusSent || status == StatusSkipped`
abbrev pub is_final : Status → Bool
is_final sent = true
is_final skipped = true
is_final _ = false

unfoldable pub validate : Reminder → Option Error
validate r = switch (
    (is_empty r.id, message "reminder id is empty")
    ∷ (is_empty r.booking_external_id, message "booking reference is empty")
    ∷ (is_empty r.customer_id, message "customer id is empty")
    ∷ (is_empty r.conversation_id, message "conversation id is empty")
    ∷ (is_empty r.provider, message "provider is empty")
    ∷ (is_empty r.external_thread_id, message "thread id is empty")
    ∷ (is_zero r.expected_starts_at, message "expected appointment start is empty")
    ∷ (is_zero r.due_at, message "due time is empty")
    ∷ (not (is_scheduled r.status), message "new reminder status must be scheduled")
    ∷ (is_zero r.created_at, message "creation time is empty")
    ∷ [])

unfoldable pub terminal : Reminder → Bool
terminal r = is_final r.status
