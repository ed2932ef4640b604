-- ===== src/Tests/Notifications.antt =====
-- Tests of the routing of notifications.
use omnichannel_booking_assi.Prelude.{
  ◌≡◌, refl, String, Bool, true, false, Option, none, some, List, [], ◌∷◌, ◌++◌, All,
}
use omnichannel_booking_assi.Domain.Errors.{ok}
use omnichannel_booking_assi.Domain.Phone.{normalize_phone}
use omnichannel_booking_assi.Notifications.Routing.{
  telegram, whatsapp, sms, booking_changed, Recipient, Policy, Target, order_of, plan,
}
use omnichannel_booking_assi.Notifications.Routing.Consent.{IsAllowed, plan-IsAllowed}
use omnichannel_booking_assi.Notifications.Routing.Order.{
  IsSublist, AreDistinct, channels, plan-IsSublist,
}

-- The phone library finds every number valid, as it is written.
abbrev any_number : String → Option String
any_number s = some s

abbrev ani : Recipient
ani = record {
  phone = "+37491123456";
  telegram_chat = "7";
  telegram_phone = "+37491123456";
  whatsapp_opted_in = true;
  whatsapp_opt_in_phone = "+37491123456";
  telegram_opted_out = false;
  booking_updates_requested = false;
}

abbrev policy : Policy
policy = record {
  messenger_order = whatsapp ∷ telegram ∷ [];
  enabled = λ c. true;
  templates = λ p. " visit ";
  telegram_account = false;
}

abbrev expected : List Target
expected =
    record {
      channel = whatsapp;
      address = "+37491123456";
      template_id = "visit";
      studio_account = false;
    }
    ∷ record { channel = telegram; address = "7"; template_id = ""; studio_account = false }
    ∷ record { channel = sms; address = "+37491123456"; template_id = ""; studio_account = false }
    ∷ []

plan_runs : plan any_number policy ani booking_changed ≡ ok expected
unfolding plan omnichannel_booking_assi.Prelude.Spaces.trim_space
    omnichannel_booking_assi.Domain.Phone.has_prefix
plan_runs = refl

plan-IsAllowed_example :
    (phone : String) × (normalize_phone any_number "+37491123456" ≡ ok phone)
    × All (IsAllowed policy ani booking_changed phone) expected
plan-IsAllowed_example = plan-IsAllowed any_number policy ani booking_changed expected plan_runs

plan-IsSublist_example :
    IsSublist (channels expected) (order_of policy ++ sms ∷ []) × AreDistinct (channels expected)
plan-IsSublist_example = plan-IsSublist any_number policy ani booking_changed expected plan_runs
