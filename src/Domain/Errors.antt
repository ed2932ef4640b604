-- ===== src/Domain/Errors.antt =====
-- The sentinel errors of the domain packages, and Go's wrapping of errors.
use omnichannel_booking_assi.Prelude.{
  String, Bool, Option, none, some, List, [], ◌∷◌, if◌then◌else◌,
}

-- What an `ErrNotFound` speaks of: each package has its own.
pub data Entity : Type 0 where
  conversation customer reminder booking : Entity

pub data Error : Type 0 where
  not_found : Entity → Error
  invalid_transition : Error
  external_reply_conflict : Error
  rejected : Error
  slot_unavailable : Error
  unavailable : Error
  outcome_unknown : Error
  invalid_envelope : Error
  delivery_busy : Error
  delivery_uncertain : Error
  delivery_rejected : Error
  page_expired : Error
  -- `errors.New(text)`
  message : String → Error
  -- `fmt.Errorf("text: %w", err)`
  wrapped : String → Error → Error

-- A function with the results `(T, error)`.
pub data Result {ℓ} (A : Type ℓ) : Type ℓ where
  ok : A → Result A
  err : Error → Result A

-- `switch { case test: return error … } return nil`
abbrev pub switch : List (Bool × Error) → Option Error
switch [] = none
switch ((test, e) ∷ rest) = if test then some e else switch rest

-- What `errors.Is` finds behind the wrapping.
abbrev pub cause : Error → Error
cause (wrapped _ e) = cause e
cause (not_found x) = not_found x
cause invalid_transition = invalid_transition
cause external_reply_conflict = external_reply_conflict
cause rejected = rejected
cause slot_unavailable = slot_unavailable
cause unavailable = unavailable
cause outcome_unknown = outcome_unknown
cause invalid_envelope = invalid_envelope
cause delivery_busy = delivery_busy
cause delivery_uncertain = delivery_uncertain
cause delivery_rejected = delivery_rejected
cause page_expired = page_expired
cause (message s) = message s
