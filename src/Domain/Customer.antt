-- ===== src/Domain/Customer.antt =====
-- internal/domain/customer/customer.go: the people a business serves, and their messaging accounts.
use Prim.Native.String.{◌++◌}
use omnichannel_booking_assi.Prelude.{String, Option, [], ◌∷◌, is_empty}
use omnichannel_booking_assi.Prelude.Time.{Time}
use omnichannel_booking_assi.Domain.Errors.{Error, message, switch}
use omnichannel_booking_assi.Domain.Messaging.{Provider}

pub record Customer : Type 0 where
  pub id : String
  pub name : String
  pub phone : String
  pub verified_phone : String
  pub created_at : Time
  pub updated_at : Time

pub record ChannelIdentity : Type 0 where
  pub id : String
  pub customer_id : String
  pub provider : Provider
  pub external_user_id : String
  pub display_name : String
  pub language : String
  pub created_at : Time

-- `ChannelIdentity.Key`
unfoldable pub key : ChannelIdentity → String
key c = c.provider ++ ":" ++ c.external_user_id

unfoldable pub validate : ChannelIdentity → Option Error
validate c = switch (
    (is_empty c.customer_id, message "channel identity: customer id is empty")
    ∷ (is_empty c.provider, message "channel identity: provider is empty")
    ∷ (is_empty c.external_user_id, message "channel identity: external user id is empty")
    ∷ [])
