-- ===== src/Notifications/Sms.antt =====
-- internal/application/notifications/sms_receipts.go: the checks of sent SMS, and the staff's alert.
use omnichannel_booking_assi.Prelude.{
  ℕ, ◌+◌, ◌*◌, String, Bool, true, false, not, ◌&&◌, ◌||◌, Option, none, some, List, [], ◌∷◌, ◌==◌,
  eqb, if◌then◌else◌,
}
use omnichannel_booking_assi.Prelude.Time.{Time, after, before, is_zero, minute, hour}
use omnichannel_booking_assi.Domain.Errors.{Error, Result, ok, err, message, wrapped}
use omnichannel_booking_assi.Memory.Notifications.{
  get_notification, is_sms_outcome, pending_sms_notifications,
}
use omnichannel_booking_assi.Notifications.Entry.{Entry, Notice}
use omnichannel_booking_assi.Notifications.Process.{
  World, Call, done, step, ◌>>=◌, ◌>>◌, then_do, nothing, fail, attempt,
}
use omnichannel_booking_assi.Notifications.Service.{
  Env, Change, key, now, fresh_id, query, transact, keep, put,
}

-- `awaitingSMS`
unfoldable pub awaiting_sms : Entry → Bool
awaiting_sms row = row.kind == "event" && row.state == "done" && is_sms_outcome row.outcome

-- `smsFailureOutcome`
unfoldable pub sms_failure_outcome : String → String
sms_failure_outcome provider_state =
    if provider_state == "sms_cancelled" then "cancelled_sms" else "failed_sms"

-- What the first transaction of `checkSMS` decides.
pub data Check : Type 0 where
  unclaimed : Check
  alert_only : String → Check
  lookup_status : Notice → Check

abbrev pub rotated : Entry → Time → Entry
rotated row at = record row { updated_at = at; next_lookup_at = at + 5 * minute }

abbrev pub freed : Entry → Entry
freed row = record row { lease_owner = ""; lease_until = 0 }

abbrev pub checking : Entry → String → Time → Entry
checking row owner at = record (rotated row at) { lease_owner = owner; lease_until = at + minute }

abbrev pub alert_again : Entry → Time → Entry
alert_again row at = record (freed (rotated row at)) {
  outcome = sms_failure_outcome row.provider_state;
  sms_failure_alerted_at = at;
}

-- `alerts` tells whether there is an `SMSFailureAlert`.
unfoldable pub claim_check : String → String → Bool → Time → Change Check
unfolding get_notification awaiting_sms sms_failure_outcome
claim_check name owner alerts at _ rows =
    let row = get_notification name rows in
    if not (awaiting_sms row) || after row.lease_until at || after row.next_lookup_at at
    then keep unclaimed rows
    else if not (row.outcome == "sms_alert_retryable")
    then put (lookup_status row.notice) name (checking row owner at) rows
    else if not alerts
    then put unclaimed name (freed (rotated row at)) rows
    else put (alert_only row.event.record_id) name (alert_again row at) rows

-- `"sms_" + strings.ToLower(state)` for the states that the code names.
unfoldable pub provider_text : String → String
provider_text state =
    if state == "Pending"
    then "sms_pending"
    else if state == "Processed"
    then "sms_processed"
    else if state == "Sent"
    then "sms_sent"
    else if state == "Cancelling"
    then "sms_cancelling"
    else if state == "Delivered"
    then "sms_delivered"
    else if state == "Failed"
    then "sms_failed"
    else "sms_cancelled"

abbrev pub is_under_way : String → Bool
is_under_way state =
    state == "Pending"
    || state == "Processed"
    || state == "Sent"
    || state == "Cancelling"
    || state == "Delivered"

abbrev pub is_failure : String → Bool
is_failure state = state == "Failed" || state == "Cancelled"

abbrev pub observation_time : ℕ
observation_time = 24 * hour

abbrev pub is_over : Entry → Time → Bool
is_over row at =
    not (is_zero row.event.received_at)
    && not (before at (row.event.received_at + observation_time))

abbrev pub unread : Entry → Time → Entry
unread row at =
    if is_over row at then record (freed row) { outcome = "unconfirmed_sms" } else freed row

abbrev pub under_way : Entry → String → Time → Entry
under_way row state at =
    if is_over row at
    then record (freed row) {
      provider_state = provider_text state;
      outcome = if state == "Delivered" then "delivered_sms" else "unconfirmed_sms";
    }
    else record (freed row) { provider_state = provider_text state }

abbrev pub failed_row : Entry → String → Entry
failed_row row state = record (freed row) {
  provider_state = provider_text state;
  outcome = if state == "Cancelled" then "cancelled_sms" else "failed_sms";
}

abbrev pub reserved_row : Entry → String → Time → Entry
reserved_row row state at = record (failed_row row state) { sms_failure_alerted_at = at }

-- The second transaction of `checkSMS`; its answer is the record of an alert that is due.
unfoldable pub store_status : String → String → Bool → Time → Result String → Change (Option String)
unfolding get_notification awaiting_sms provider_text
store_status name owner alerts at answer _ rows =
    let row = get_notification name rows in
    if not (row.lease_owner == owner) || not (awaiting_sms row)
    then keep none rows
    else elim answer [
      | err e ↦ put none name (unread row at) rows
      | ok state ↦
          if is_under_way state
          then put none name (under_way row state at) rows
          else if not (is_failure state)
          then err (message "unrecognized SMS delivery state")
          else if is_zero row.sms_failure_alerted_at && alerts
          then put (some row.event.record_id) name (reserved_row row state at) rows
          else put none name (failed_row row state) rows
    ]

abbrev pub retryable : Entry → Entry
retryable row = record row { outcome = "sms_alert_retryable"; sms_failure_alerted_at = 0 }

-- A refused alert gives its reservation back.
unfoldable pub reopen_alert : String → Time → Change (Unit {0})
unfolding get_notification
reopen_alert name reserved_at _ rows =
    let row = get_notification name rows in
    if not (eqb row.sms_failure_alerted_at reserved_at)
      || not (row.outcome == "failed_sms") && not (row.outcome == "cancelled_sms")
    then keep tt rows
    else put tt name (retryable row) rows

abbrev pub attention : Error → Error
attention e = wrapped "SMS failure alert requires attention" e

abbrev pub on_alert : Env → String → Time → Bool × Option Error → Call (Unit {0})
on_alert env name reserved_at (rejected, none) = nothing
on_alert env name reserved_at (rejected, some e) =
    if rejected
    then then_do (transact env (name ∷ []) (reopen_alert name reserved_at))
        (λ ignored. fail (attention e))
    else fail (attention e)

-- `sendSMSFailureAlert`
unfoldable pub send_sms_failure_alert :
    Env
    → (World → String → String → Bool × Option Error)
    → String
    → String
    → String
    → Time
    → Call (Unit {0})
unfolding reopen_alert
send_sms_failure_alert env alert name record_id id reserved_at =
    step (λ w. record w { alerts = record { record_id = record_id; event_id = id } ∷ w.alerts })
      (λ w. on_alert env name reserved_at (alert w record_id id))

abbrev pub alert_if_any : Env → String → String → String → Time → Call (Unit {0})
alert_if_any env name record_id id at = elim env.sms_failure_alert [
  | none ↦ nothing
  | some alert ↦ send_sms_failure_alert env alert name record_id id at
]

abbrev pub has_alert : Env → Bool
has_alert env = elim env.sms_failure_alert [ none ↦ false | some alert ↦ true ]

abbrev pub error_of : {A : Type 0} → Result A → Call (Unit {0})
error_of (ok _) = nothing
error_of (err e) = fail e

abbrev pub alert_due : Env → String → String → Time → Option String → Call (Unit {0})
alert_due env name id at none = nothing
alert_due env name id at (some record_id) = alert_if_any env name record_id id at

-- The status of the SMS is read, and stored.
unfoldable pub look_up :
    Env
    → (World → Notice → Result String)
    → String
    → String
    → String
    → Time
    → Notice
    → Call (Unit {0})
unfolding store_status send_sms_failure_alert
look_up env status name owner id at notice = do
  answer ← attempt (step (λ w. w) (λ w. done (status w notice)))
  alert ← transact env (name ∷ []) (store_status name owner (has_alert env) at answer)
  alert_due env name id at alert
  error_of answer

abbrev pub on_check :
    Env
    → (World → Notice → Result String)
    → String
    → String
    → String
    → Time
    → Check
    → Call (Unit {0})
on_check env status name owner id at unclaimed = nothing
on_check env status name owner id at (alert_only record_id) = alert_if_any env name record_id id at
on_check env status name owner id at (lookup_status notice) =
    look_up env status name owner id at notice

-- `checkSMS`
unfoldable pub check_sms : Env → (World → Notice → Result String) → String → Call (Unit {0})
unfolding claim_check look_up send_sms_failure_alert key
check_sms env status id = do
  owner ← fresh_id env
  at ← now
  check ←
      transact env (key env "event" id ∷ [])
        (claim_check (key env "event" id) owner (has_alert env) at)
  on_check env status (key env "event" id) owner id at check

-- `errors.Join`: of several errors the first one stands for all.
abbrev pub join : Result (Unit {0}) → Result (Unit {0}) → Result (Unit {0})
join (ok _) r = r
join (err e) r = err e

-- The loop of `reconcileSMS`.
unfoldable pub check_each :
    Env → (World → Notice → Result String) → List Entry → Result (Unit {0}) → Call (Unit {0})
unfolding check_sms
check_each env status [] result = done result
check_each env status (row ∷ rows) result =
    then_do (check_sms env status row.event.id) (λ r. check_each env status rows (join result r))

-- `reconcileSMS`
unfoldable pub reconcile_sms : Env → Call (Unit {0})
unfolding check_each pending_sms_notifications
reconcile_sms env = elim env.sms_status [
  | none ↦ nothing
  | some status ↦ query env pending_sms_notifications >>= λ rows. check_each env status rows (ok tt)
]
