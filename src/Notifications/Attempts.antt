-- ===== src/Notifications/Attempts.antt =====
-- internal/application/notifications/service.go: the loop of `Deliver` over the targets. The parts of the
-- loop are functions, the last first.
use Prim.Native.String as Text
use omnichannel_booking_assi.Prelude.{
  String, Bool, true, false, not, ◌&&◌, ◌||◌, Option, none, some, List, [], ◌∷◌, ◌++◌, ◌==◌,
  is_empty, if◌then◌else◌,
}
use omnichannel_booking_assi.Prelude.Time.{Time}
use omnichannel_booking_assi.Domain.Errors.{Error}
use omnichannel_booking_assi.Memory.Notifications.{get_notification}
use omnichannel_booking_assi.Notifications.Entry.{Entry, Notice}
use omnichannel_booking_assi.Notifications.Routing.{
  Channel, Purpose, Target, telegram, whatsapp, sms, booking_reminder, same_channel,
}
use omnichannel_booking_assi.Notifications.Process.{Call, step, ◌>>=◌, ◌>>◌, nothing, return}
use omnichannel_booking_assi.Notifications.Service.{Env, Change, key, transact, keep, put, finish}

-- The text of a delivery row's key.
unfoldable pub delivery_id : String → String → String
delivery_id record_id id = Text.◌++◌ record_id (Text.◌++◌ ":" id)

-- `string(target.Channel)`, and the name of the studio's own account.
unfoldable pub route_of : Target → String
route_of target = if target.studio_account then "telegram_account" else elim target.channel [
  | telegram ↦ "telegram"
  | whatsapp ↦ "whatsapp"
  | sms ↦ "sms"
  | Channel.other s ↦ s
]

-- What the first transaction on a delivery row finds.
pub data Reservation : Type 0 where
  reserved : Reservation
  already_rejected : String → Reservation
  final : String → Reservation

-- `for _, channel := range attempt.Attempted`
unfoldable pub is_attempted : String → List String → Bool
is_attempted route [] = false
is_attempted route (r ∷ rs) = r == route || is_attempted route rs

abbrev pub is_closed : Entry → Bool
is_closed delivery = delivery.state == "sending" || delivery.state == "done"

unfoldable pub uncertain : String → String
uncertain route = Text.◌++◌ "uncertain_" route

abbrev pub sending_entry : Entry → String → Time → Entry
sending_entry delivery route at = record delivery {
  kind = "delivery";
  state = "sending";
  outcome = uncertain route;
  updated_at = at;
  attempted = delivery.attempted ++ route ∷ [];
}

-- The intent to send, made durable before the provider is called.
unfoldable pub reserve : String → String → Time → Change Reservation
unfolding get_notification is_attempted
reserve name route at _ rows =
    let delivery = get_notification name rows in
    if is_closed delivery
    then keep (final delivery.outcome) rows
    else if is_attempted route delivery.attempted
    then keep (already_rejected delivery.outcome) rows
    else put reserved name (sending_entry delivery route at) rows

unfoldable pub outcome_of : Bool → Option Error → String → String
unfolding uncertain
outcome_of rejected none route = Text.◌++◌ "accepted_" route
outcome_of rejected (some e) route =
    if rejected then Text.◌++◌ "rejected_" route else uncertain route

abbrev pub is_error : Option Error → Bool
is_error none = false
is_error (some e) = true

abbrev pub answered : Entry → Bool → Option Error → String → Entry
answered delivery rejected failure route = record delivery {
  state = if is_error failure && rejected then "retryable_rejection" else "done";
  outcome = outcome_of rejected failure route;
}

-- The provider's answer.
unfoldable pub record_answer : String → Bool → Option Error → String → Change (Unit {0})
unfolding get_notification outcome_of
record_answer name rejected failure route _ rows =
    put tt name (answered (get_notification name rows) rejected failure route) rows

abbrev pub set_channel : String → String → Channel → Change (Unit {0})
set_channel name phone channel _ rows =
    let record_row = get_notification name rows in
    if record_row.calendar_phone == phone
    then put tt name (record record_row { confirmation_channel = channel }) rows
    else keep tt rows

abbrev pub is_reminder : Purpose → Bool
is_reminder booking_reminder = true
is_reminder _ = false

-- The provider is called: nothing undoes that.
abbrev pub send : Env → String → Target → Notice → String → Call (Bool × Option Error)
send env delivery target notice language =
    step (λ w. record w { sent = record { delivery = delivery; route = route_of target } ∷ w.sent })
      (λ w. return (env.sender w target notice language))

-- What `Deliver` knows of the event when it comes to the targets.
pub record Job : Type 0 where
  pub name : String
  pub owner : String
  pub record_id : String
  pub id : String
  pub notice : Notice
  pub phone : String
  pub telegram_language : String
  pub whatsapp_language : String
  pub at : Time

abbrev pub language_of : Job → Target → String
language_of job target =
    if same_channel target.channel whatsapp then job.whatsapp_language else job.telegram_language

abbrev pub delivery_name : Env → Job → String
delivery_name env job = key env "delivery" (delivery_id job.record_id job.id)

abbrev pub is_last {ℓ} : {A : Type ℓ} → List A → Bool
is_last [] = true
is_last (_ ∷ _) = false

unfoldable pub confirm_channel : Env → Job → Target → Bool → Option Error → Call (Unit {0})
unfolding get_notification key
confirm_channel env job target rejected failure =
    if not (is_reminder job.notice.purpose) && (not (is_error failure) || not rejected)
    then transact env (key env "record" job.record_id ∷ [])
        (set_channel (key env "record" job.record_id) job.phone target.channel)
    else nothing

unfoldable pub finish_job : Env → Job → String → Call (Unit {0})
unfolding finish key delivery_id
finish_job env job outcome = finish env job.name job.owner outcome (some (delivery_name env job))

abbrev pub or_default : String → String
or_default outcome = if is_empty outcome then "already_attempted_or_uncertain" else outcome

-- After a reservation: the call of the provider, and what is recorded of it. `next` is the rest of
-- the loop.
unfoldable pub send_reserved : Env → Job → Target → Bool → Call (Unit {0}) → Call (Unit {0})
unfolding key delivery_id route_of record_answer confirm_channel finish_job outcome_of
send_reserved env job target last next = do
  (rejected, failure) ←
      send env (delivery_id job.record_id job.id) target job.notice (language_of job target)
  confirm_channel env job target rejected failure
  transact env (delivery_name env job ∷ [])
      (record_answer (delivery_name env job) rejected failure (route_of target))
  if not (is_error failure) || not rejected || last
      then finish_job env job (outcome_of rejected failure (route_of target))
      else next

abbrev pub on_reservation :
    Env → Job → Target → Bool → Call (Unit {0}) → Reservation → Call (Unit {0})
on_reservation env job target last next reserved = send_reserved env job target last next
on_reservation env job target last next (already_rejected outcome) =
    if last then finish_job env job (or_default outcome) else next
on_reservation env job target last next (final outcome) = finish_job env job (or_default outcome)

-- `for i, target := range targets`
unfoldable pub try_targets : Env → Job → List Target → Call (Unit {0})
unfolding reserve send_reserved finish_job key delivery_id route_of
try_targets env job [] = nothing
try_targets env job (target ∷ targets) = do
  let next = try_targets env job targets
  reservation ←
      transact env (delivery_name env job ∷ [])
        (reserve (delivery_name env job) (route_of target) job.at)
  on_reservation env job target (is_last targets) next reservation
