-- ===== src/Notifications/Once/Changes.antt =====
-- The functions of the transactions of internal/application/notifications keep the attempts of all delivery
-- rows, but for the one that makes an intent to send durable.
use omnichannel_booking_assi.Prelude.{
  String, Bool, not, ◌&&◌, Option, none, some, ◌==◌, ◌≢◌, refl, sym, ◌∙◌,
}
use omnichannel_booking_assi.Prelude.Dict.{insert}
use omnichannel_booking_assi.Prelude.Time.{Time, after, is_zero}
use omnichannel_booking_assi.Domain.Errors.{Error, Result}
use omnichannel_booking_assi.Domain.Rules.{if_rule}
use omnichannel_booking_assi.Memory.Notifications.{Rows, get_notification}
use omnichannel_booking_assi.Notifications.Entry.{Event, Snapshot}
use omnichannel_booking_assi.Notifications.Routing.{Channel}
use omnichannel_booking_assi.Notifications.Service.{
  Env, key, new_event, add_event, prepare_whatsapp_fallback, needs_fallback, reopened_event,
  rejected_delivery, finished, fallback_of, finish_event, fingerprint, may_have_accepted,
}
use omnichannel_booking_assi.Notifications.Attempts.{record_answer, set_channel}
use omnichannel_booking_assi.Notifications.Prepare as Prepare
use omnichannel_booking_assi.Notifications.Recipients.{repair_record}
use omnichannel_booking_assi.Memory.Notifications.Rows.{Ends, Keeps, insert-Keeps, insert-Keeps_ne}
use omnichannel_booking_assi.Notifications.Once.Tokens.{QuietChange}

-- What a transaction leaves of the attempts of the row `d`.
abbrev pub Kept : {A : Type 0} → String → Rows → Result (A × Rows) → Type 0
Kept d rows = Ends (λ _ rows'. Keeps d rows rows')

abbrev pub Apart : Env → String → Type 0
Apart env name = (x : String) → name ≢ key env "delivery" x

pub fallback-Keeps :
    (d name delivery_name : String) (at : Time) (rows : Rows)
    → Keeps d rows (prepare_whatsapp_fallback name delivery_name at rows)
unfolding prepare_whatsapp_fallback
fallback-Keeps d name delivery_name at rows =
    let event = get_notification name rows in
    let delivery = get_notification delivery_name rows in
    if_rule (Keeps d rows) (needs_fallback event delivery)
      (λ _.
        insert-Keeps d delivery_name (rejected_delivery delivery at)
          (insert name (reopened_event event at) rows)
          (sym (insert-Keeps delivery_name name (reopened_event event at) rows refl))
        ∙ insert-Keeps d name (reopened_event event at) rows refl)
      (λ _. refl)

fallback_of-Keeps :
    (d name : String) (delivery_name : Option String) (at : Time) (rows : Rows)
    → Keeps d rows (fallback_of name delivery_name at rows)
fallback_of-Keeps d name none at rows = refl
fallback_of-Keeps d name (some delivery_name) at rows = fallback-Keeps d name delivery_name at rows

module _ (env : Env) where
  pub add_event-Quiet :
      (name : String) (e : Event) (at : Time)
      → Apart env name
      → QuietChange env (add_event name e at)
  add_event-Quiet name e at apart = λ x t rows.
      if_rule (Kept (key env "delivery" x) rows) ((get_notification name rows).kind == "")
        (λ _. insert-Keeps_ne (key env "delivery" x) name (new_event e at) rows (apart x))
        (λ _. refl)

  pub finish_event-Quiet :
      (name owner outcome : String) (delivery_name : Option String)
      → QuietChange env (finish_event name owner outcome delivery_name)
  finish_event-Quiet name owner outcome delivery_name = λ x at rows.
      let d = key env "delivery" x in
      let row = get_notification name rows in
      if_rule (Kept d rows) (not (row.lease_owner == owner)) (λ _. tt)
        (λ _.
          fallback_of-Keeps d name delivery_name at (insert name (finished row outcome at) rows)
          ∙ insert-Keeps d name (finished row outcome at) rows refl)

  pub record_answer-Quiet :
      (name : String) (rejected : Bool) (failure : Option Error) (route : String)
      → QuietChange env (record_answer name rejected failure route)
  unfolding record_answer
  record_answer-Quiet name rejected failure route =
      λ x at rows. insert-Keeps (key env "delivery" x) name _ rows refl

  pub set_channel-Quiet :
      (name phone : String) (channel : Channel) → QuietChange env (set_channel name phone channel)
  set_channel-Quiet name phone channel = λ x at rows.
      if_rule (Kept (key env "delivery" x) rows)
        ((get_notification name rows).calendar_phone == phone)
        (λ _. insert-Keeps (key env "delivery" x) name _ rows refl) (λ _. refl)

  pub lease_event-Quiet :
      (name owner : String) (at : Time) → QuietChange env (Prepare.lease_event name owner at)
  unfolding Prepare.lease_event
  lease_event-Quiet name owner at = λ x t rows.
      let d = key env "delivery" x in
      let row = get_notification name rows in
      if_rule (Kept d rows) (not (Prepare.is_open row)) (λ _. refl)
        (λ _.
          if_rule (Kept d rows) (after row.lease_until at) (λ _. tt)
            (λ _. insert-Keeps d name (Prepare.leased row owner at) rows refl))

  pub release_event-Quiet :
      (name owner : String) → QuietChange env (Prepare.release_event name owner)
  unfolding Prepare.release_event
  release_event-Quiet name owner = λ x t rows.
      if_rule (Kept (key env "delivery" x) rows) ((get_notification name rows).lease_owner == owner)
        (λ _. insert-Keeps (key env "delivery" x) name _ rows refl) (λ _. refl)

  pub prepare_event-Quiet :
      (name record_name owner : String) (read : Event) (snap : Snapshot) (owned : Bool) (at : Time)
      (new_id : String)
      → Apart env name
      → Apart env record_name
      → QuietChange env (Prepare.prepare_event env name record_name owner read snap owned at new_id)
  unfolding Prepare.prepare_event
  prepare_event-Quiet name record_name owner read snap owned at new_id own apart = λ x t rows.
      let d = key env "delivery" x in
      let event = get_notification name rows in
      let row = get_notification record_name rows in
      let marked = insert record_name (Prepare.new_record env row read snap at new_id) rows in
      if_rule (Kept d rows) (not (event.lease_owner == owner)) (λ _. tt)
        (λ _.
          if_rule (Kept d rows) (Prepare.is_known row snap (fingerprint env snap))
            (λ _. insert-Keeps d name (Prepare.duplicate event) rows refl)
            (λ _.
              insert-Keeps_ne d name (Prepare.news_of env owned event row snap at) marked (own x)
              ∙ insert-Keeps_ne d record_name (Prepare.new_record env row read snap at new_id) rows
                  (apart x)))

  pub resume_change-Quiet :
      (name delivery_name : String) → QuietChange env (Prepare.resume_change name delivery_name)
  unfolding Prepare.resume_change
  resume_change-Quiet name delivery_name = λ x at rows.
      let d = key env "delivery" x in
      let event = get_notification name rows in
      let delivery = get_notification delivery_name rows in
      if_rule (Kept d rows) (after event.lease_until at)
        (λ _.
          if_rule (Kept d rows)
            (delivery.provider_state == "failed" && may_have_accepted delivery.outcome) (λ _. tt)
            (λ _. refl))
        (λ _. fallback-Keeps d name delivery_name at rows)

  pub repair_record-Quiet :
      (name : String) (latest : Snapshot) (phone : String)
      → QuietChange env (repair_record name latest phone)
  unfolding repair_record
  repair_record-Quiet name latest phone = λ x at rows.
      let row = get_notification name rows in
      if_rule (Kept (key env "delivery" x) rows)
        (row.calendar_phone == phone && is_zero row.contact.requested_at)
        (λ _. insert-Keeps (key env "delivery" x) name _ rows refl) (λ _. refl)
