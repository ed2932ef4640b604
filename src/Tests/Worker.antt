-- ===== src/Tests/Worker.antt =====
-- Tests of the notification worker: an event that comes in, two deliveries of it whose steps alternate, and
-- the receipts that follow.
use Prim.Native.String.{String}
use omnichannel_booking_assi.Prelude.{
  ◌≡◌, ◌≢◌, refl, ◌⊎◌, inl, inr, ℕ, zero, suc, ◌+◌, ◌*◌, ◌≤◌, ◌<◌, Bool, true, false, Option, none,
  some, List, [], ◌∷◌, ◌++◌, eq_false→ne, arith, if◌then◌else◌, eqb,
}
use omnichannel_booking_assi.Prelude.Int.{pos}
use omnichannel_booking_assi.Prelude.Dict.{insert}
use omnichannel_booking_assi.Prelude.Time.{Time, second, minute, hour, day}
use omnichannel_booking_assi.Domain.Errors.{Error, Result, ok, err, not_found, booking, message}
use omnichannel_booking_assi.Domain.Booking.{Booking, confirmed}
use omnichannel_booking_assi.Domain.Phone.{normalize_phone}
use omnichannel_booking_assi.Memory.Notifications.{
  Rows, get_notification, transact_notifications, read_rows,
}
use omnichannel_booking_assi.Memory.Notifications.Rows.{has, transact_notifications_lem}
use omnichannel_booking_assi.Notifications.Entry.{
  Entry, Event, Snapshot, empty_booking, empty_entry, empty_contact,
}
use omnichannel_booking_assi.Notifications.Routing.{Target, plan, booking_created, telegram}
use omnichannel_booking_assi.Notifications.Recipients.{policy_of, recipient_of}
use omnichannel_booking_assi.Notifications.Contacts.{
  block_phone, link_whatsapp, resolve_language, link_rows, consent_time,
}
use omnichannel_booking_assi.Notifications.Contacts.Withdraw.{consents_in, block_phone-plan}
use omnichannel_booking_assi.Notifications.Contacts.Language.{resolve_language_kept}
use omnichannel_booking_assi.Notifications.Contacts.Link.{Linked, link_rows-Linked}
use omnichannel_booking_assi.Notifications.Health.{guard_allows, block}
use omnichannel_booking_assi.Notifications.Health.Restrict.{guard_allows-block}
use omnichannel_booking_assi.Notifications.Receipts.{arrived}
use omnichannel_booking_assi.Notifications.Receipts.Final.{
  state_of, apply_receipts, apply_receipts-arrived,
}
use omnichannel_booking_assi.Notifications.Process.{World, Sending, Call, run}
use omnichannel_booking_assi.Notifications.Service.{Env, HealthGuard, key}
use omnichannel_booking_assi.Notifications.Requests.{
  Action, start, turn, perform_all, ingest_event, deliver_event, link_number,
}
use omnichannel_booking_assi.Notifications.Once.Tokens.{count, was_attempted}
use omnichannel_booking_assi.Notifications.Once.Pool.{sends-le-one}

abbrev pub number : String
number = "+37491123456"

-- Native time: an appointment in three days, made an hour ago.
abbrev pub start_time : Time
start_time = 1000 * day

abbrev pub visit : Booking
visit = record empty_booking {
  id = "r1";
  service_ids = "s" ∷ [];
  staff_id = "t";
  starts_at = start_time + 3 * day;
  duration = pos hour;
  status = confirmed;
  created_at = start_time;
}

abbrev pub native : Snapshot
native = record {
  booking = visit;
  phone = number;
  changed_at = start_time;
  api_id = "";
  online = true;
  attended = false;
}

-- No repository fails; the studio's system knows the appointment, and the assistant did not make it.
abbrev pub env : Env
env = record {
  health = none;
  repository_error = λ w. none;
  scheduler = λ w task. none;
  reader = λ w id. ok native;
  owned = λ w id. some (not_found booking);
  sender = λ w target notice language. (false, none);
  activated_at = start_time;
  templates = λ t. "visit";
  telegram_account = false;
  booking_permission_since = start_time;
  native_language = "ru";
  sms_ready = true;
  sms_permission_since = start_time;
  manual_permission_since = start_time;
  sms_status = none;
  sms_failure_alert = none;
  parse = λ s. some s;
  digest = λ s. s;
  version_text = λ phone staff status services at duration. staff;
  format_time = λ t. "t";
  new_id = λ n. if eqb n 0 then "u" else if eqb n 1 then "v" else "w";
  name_id = λ s. s;
  valid_id = λ s. true;
}

abbrev pub before_all : World
before_all = record {
  rows = [];
  clock = start_time;
  made = 0;
  sent = [];
  tasks = [];
  alerts = [];
  codes = [];
}

abbrev pub news : Event
news = record { id = "e1"; record_id = "r1"; status = "create"; received_at = 0 }

abbrev turns : ℕ → ℕ → List Action
turns zero i = []
turns (suc n) i = turn i ∷ turns n i

-- Two deliveries take turns: the second finds the lease of the first.
abbrev alternate : ℕ → List Action
alternate zero = []
alternate (suc n) = turn 0 ∷ turn 1 ∷ alternate n

abbrev actions : List Action
actions =
    start (ingest_event news) ∷ turns 5 0
    ++ start (link_number number "ru" true) ∷ turns 3 0
    ++ start (deliver_event "e1") ∷ start (deliver_event "e1") ∷ alternate 40

abbrev to_whatsapp : Sending
to_whatsapp = record { delivery = "r1:e1"; route = "whatsapp" }

sent_once : (perform_all env actions [] before_all).1.sent ≡ to_whatsapp ∷ []
unfolding perform_all omnichannel_booking_assi.Notifications.Deliver.deliver
    omnichannel_booking_assi.Notifications.Process.then_do
    omnichannel_booking_assi.Notifications.Service.query
    omnichannel_booking_assi.Prelude.Dict.lookup
    omnichannel_booking_assi.Notifications.Contacts.link_whatsapp normalize_phone
    omnichannel_booking_assi.Domain.Phone.has_prefix
    omnichannel_booking_assi.Notifications.Service.transact transact_notifications
    omnichannel_booking_assi.Prelude.Dict.insert
    omnichannel_booking_assi.Notifications.Service.ingest
    omnichannel_booking_assi.Notifications.Service.now
    omnichannel_booking_assi.Notifications.Service.fresh_id
    omnichannel_booking_assi.Notifications.Recipients.template_for
    omnichannel_booking_assi.Notifications.Routing.plan
    omnichannel_booking_assi.Notifications.Recipients.recipient_of
    omnichannel_booking_assi.Notifications.Recipients.policy_of
sent_once = refl

sends-le-one_example :
    (count to_whatsapp (perform_all env actions [] before_all).1.sent ≤ 1)
    × ((count to_whatsapp (perform_all env actions [] before_all).1.sent ≡ 0)
        ⊎ (was_attempted env (perform_all env actions [] before_all).1 to_whatsapp ≡ true))
sends-le-one_example = sends-le-one env actions before_all to_whatsapp refl

-- The first row of a phone number.
abbrev telegram_name : String
telegram_name = key env "telegram_phone" number

abbrev clear_row : Rows → Result (ℕ × Rows)
clear_row rows = ok (7, insert "a" empty_entry rows)

transact_notifications_lem_example :
    ((e : Error) × (clear_row (read_rows ("a" ∷ []) []) ≡ err e)
      × (transact_notifications ("a" ∷ []) clear_row [] ≡ ([], err e)))
    ⊎ ((a : ℕ) × (rows : Rows) × (clear_row (read_rows ("a" ∷ []) []) ≡ ok (a, rows))
        × ((transact_notifications ("a" ∷ []) clear_row []).1 ≡ ok a)
        × ((d : String)
            → get_notification d (transact_notifications ("a" ∷ []) clear_row []).0
              ≡ (if has d ("a" ∷ []) then get_notification d rows else get_notification d [])))
transact_notifications_lem_example = transact_notifications_lem ("a" ∷ []) clear_row []

number_is_normal : normalize_phone env.parse number ≡ ok number
unfolding normalize_phone omnichannel_booking_assi.Prelude.Spaces.trim_space
    omnichannel_booking_assi.Domain.Phone.has_prefix
number_is_normal = refl

abbrev no_targets : List Target
no_targets = []

-- The number has agreed to WhatsApp.
abbrev linked_before : World
linked_before = (run (link_whatsapp env number "ru" true) before_all).0

plan_is_empty :
    plan env.parse
      (policy_of env
        (consents_in env (run (block_phone env number) linked_before).0.rows number)
        empty_entry
        native
        booking_created
        number
        start_time
        true)
      (recipient_of env
        (consents_in env (run (block_phone env number) linked_before).0.rows number)
        empty_entry
        native
        number
        start_time)
      booking_created
    ≡ ok no_targets
unfolding plan omnichannel_booking_assi.Prelude.Spaces.trim_space recipient_of
    omnichannel_booking_assi.Domain.Phone.has_prefix policy_of get_notification
    omnichannel_booking_assi.Prelude.Dict.lookup run block_phone
    omnichannel_booking_assi.Notifications.Service.transact transact_notifications insert
    link_whatsapp
plan_is_empty = refl

block_phone-plan_example : no_targets ≡ []
block_phone-plan_example =
    block_phone-plan env linked_before number number empty_entry native booking_created start_time
      true no_targets number_is_normal refl plan_is_empty

resolve_language_kept_example :
    (run
      (resolve_language env number "en" false)
      (record (run (resolve_language env number "hy" true) before_all).0 {
        clock = start_time + day;
      })).1
    ≡ ok "hy"
resolve_language_kept_example =
    resolve_language_kept env before_all number number "hy" "en" (start_time + day) number_is_normal
      refl refl (λ v. refl)

-- The chat asked for a contact a minute before.
abbrev asking : Rows
asking =
    (
      "chat",
      record empty_entry {
        contact = record empty_contact { chat = "7"; requested_at = start_time };
      },
    )
    ∷ []

abbrev linking : Time
linking = start_time + minute

abbrev linked_entry : Entry
linked_entry = record empty_entry {
  contact = record empty_contact {
    chat = "7";
    phone = number;
    channel = telegram;
    expires_at = linking + consent_time;
  };
}

abbrev linked : Rows
linked = ("chat", linked_entry) ∷ ("phone", linked_entry) ∷ []

link_runs : link_rows "chat" "phone" none "7" number "" linking asking ≡ ok (tt, linked)
unfolding link_rows omnichannel_booking_assi.Prelude.Dict.lookup insert
link_runs = refl

link_rows-Linked_example :
    ((get_notification "chat" asking).contact.phone ≡ "")
    × Linked "chat" "phone" none "old" "7" number linking asking linked
link_rows-Linked_example =
    link_rows-Linked "chat" "phone" none "old" "7" number "" linking asking linked
      (eq_false→ne "chat" "phone" refl) (eq_false→ne "old" "chat" refl)
      (eq_false→ne "old" "phone" refl) link_runs

abbrev guard : HealthGuard
guard = record { provider = ""; read = λ w. err (message "down"); alert = none }

guard_allows-block_example :
    run
      (guard_allows env guard "visit" "ru")
      (record (run (block env guard) before_all).0 { clock = start_time + second })
    ≡ (record (run (block env guard) before_all).0 { clock = start_time + second }, ok false)
guard_allows-block_example =
    guard_allows-block env guard "visit" "ru" before_all (start_time + second) (λ v. refl)
      (omega arith)

abbrev delivered_rows : Rows
delivered_rows =
    (
      "d",
      record empty_entry {
        attempted = "whatsapp" ∷ [];
        provider_state = "delivered";
        outcome = "accepted_whatsapp";
      },
    )
    ∷ []

abbrev receipts : List (String × Time)
receipts =
    ("failed", start_time) ∷ ("read", start_time + second) ∷ ("sent", start_time + minute) ∷ []

state_arrived : arrived (state_of "d" delivered_rows) ≡ true
unfolding get_notification omnichannel_booking_assi.Prelude.Dict.lookup
state_arrived = refl

apply_receipts-arrived_example :
    arrived (state_of "d" (apply_receipts "e" "d" receipts delivered_rows)) ≡ true
apply_receipts-arrived_example =
    apply_receipts-arrived "e" "d" receipts delivered_rows state_arrived
