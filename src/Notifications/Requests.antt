-- ===== src/Notifications/Requests.antt =====
-- The calls that the gateway makes of internal/application/notifications.
use omnichannel_booking_assi.Prelude.{ℕ, ◌+◌, String, Bool, Option, List, [], ◌∷◌}
use omnichannel_booking_assi.Prelude.Time.{Time}
use omnichannel_booking_assi.Domain.Errors.{Result}
use omnichannel_booking_assi.Notifications.Entry.{Entry, Event}
use omnichannel_booking_assi.Notifications.Process.{World, Call, Pool, take_turn, ◌>>=◌, nothing}
use omnichannel_booking_assi.Notifications.Service.{Env, HealthGuard, ingest}
use omnichannel_booking_assi.Notifications.Deliver.{deliver}
use omnichannel_booking_assi.Notifications.Contacts.{
  allow_phone, block_phone, request_contact, link_telegram, unlink_telegram, link_whatsapp,
  resolve_language, record_direct_send,
}
use omnichannel_booking_assi.Notifications.Receipts.{whatsapp_status}
use omnichannel_booking_assi.Notifications.Reconcile.{reconcile, queue_web_reminder}
use omnichannel_booking_assi.Notifications.Health.{block}

-- One constructor for each method, with its arguments.
pub data Request : Type 0 where
  ingest_event : Event → Request
  deliver_event : String → Request
  reconcile_all : Option (World → Result (List Entry)) → Request
  allow : String → String → Request
  withdraw : String → Request
  ask_contact : String → String → Request
  link_chat : String → String → Request
  unlink_chat : String → Request
  link_number : String → String → Bool → Request
  choose_language : String → String → Bool → Request
  receipt : String → String → String → Request
  remind : String → String → String → ℕ → Request
  direct_send : String → String → Request
  block_channel : HealthGuard → Request

-- The call that a request makes; only the language has an answer, which is dropped.
unfoldable pub call_of : Env → Request → Call (Unit {0})
call_of env (ingest_event e) = ingest env e
call_of env (deliver_event id) = deliver env id
call_of env (reconcile_all unrouted) = reconcile env unrouted
call_of env (allow raw_phone lang) = allow_phone env raw_phone lang
call_of env (withdraw raw_phone) = block_phone env raw_phone
call_of env (ask_contact chat lang) = request_contact env chat lang
call_of env (link_chat chat raw_phone) = link_telegram env chat raw_phone
call_of env (unlink_chat chat) = unlink_telegram env chat
call_of env (link_number raw_phone lang enabled) = link_whatsapp env raw_phone lang enabled
call_of env (choose_language raw_phone hint explicit) =
    resolve_language env raw_phone hint explicit >>= λ _. nothing
call_of env (receipt reference raw_phone state) = whatsapp_status env reference raw_phone state
call_of env (remind record_id phone proof minutes) =
    queue_web_reminder env record_id phone proof minutes
call_of env (direct_send provider id) = record_direct_send env provider id
call_of env (block_channel guard) = block env guard

-- What happens next: a request comes in, the clock goes on, or the n-th call does its next step. A call
-- that gets no more turns is one whose instance has died.
pub data Action : Type 0 where
  start : Request → Action
  tick : Time → Action
  turn : ℕ → Action

unfoldable pub perform : Env → Action → Pool → World → Pool × World
unfolding take_turn call_of
perform env (start request) calls w = (call_of env request ∷ calls, w)
perform env (tick d) calls w = (calls, record w { clock = w.clock + d })
perform env (turn n) calls w = take_turn n calls w

unfoldable pub perform_all : Env → List Action → Pool → World → Pool × World
unfolding perform
perform_all env [] calls w = (calls, w)
perform_all env (action ∷ actions) calls w =
    let (calls', w') = perform env action calls w in perform_all env actions calls' w'
