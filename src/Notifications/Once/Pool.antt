-- ===== src/Notifications/Once/Pool.antt =====
-- However the calls of internal/application/notifications are interleaved, no route of a notification is used
-- twice.
use omnichannel_booking_assi.Prelude.{
  ℕ, zero, suc, ◌+◌, ◌≤◌, true, false, Option, none, List, [], ◌∷◌, ◌≡◌, leb, ap, ◌⊎◌, inl, inr,
  Bool-cases, arith,
}
use omnichannel_booking_assi.Notifications.Process.{
  World, Call, Sending, Pool, done, step, advance, take_turn,
}
use omnichannel_booking_assi.Notifications.Service.{Env}
use omnichannel_booking_assi.Notifications.Requests.{
  Request, Action, start, tick, turn, call_of, perform, perform_all,
}
use omnichannel_booking_assi.Notifications.Requests as Requests
use omnichannel_booking_assi.Notifications.Once.Tokens.{
  Allowed, Wp, bind-Quiet, done-Quiet, weight, count, was_attempted,
}
use omnichannel_booking_assi.Notifications.Once.Calls as Calls
use omnichannel_booking_assi.Notifications.Once.ConsentCalls as ConsentCalls
use omnichannel_booking_assi.Notifications.Once.CheckCalls as CheckCalls
use omnichannel_booking_assi.Notifications.Once.Delivery.{Safe, Quiet-Safe}
use omnichannel_booking_assi.Notifications.Once.Deliver.{deliver-Safe}

-- The permissions that the calls of a pool hold, one for each call at most.
abbrev pub Holdings : Type 0
Holdings = List (Option Sending)

abbrev held_by : Sending → Holdings → ℕ
held_by t [] = 0
held_by t (h ∷ hs) = weight t h + held_by t hs

module _ (env : Env) where
  pub call_of-Safe : (r : Request) → Safe env (call_of env r)
  unfolding call_of
  call_of-Safe (Requests.ingest_event e) = Quiet-Safe env _ (Calls.ingest-Quiet env e)
  call_of-Safe (Requests.deliver_event id) = deliver-Safe env id
  call_of-Safe (Requests.reconcile_all unrouted) =
      Quiet-Safe env _ (CheckCalls.reconcile-Quiet env unrouted)
  call_of-Safe (Requests.allow raw_phone lang) =
      Quiet-Safe env _ (ConsentCalls.allow_phone-Quiet env raw_phone lang)
  call_of-Safe (Requests.withdraw raw_phone) =
      Quiet-Safe env _ (ConsentCalls.block_phone-Quiet env raw_phone)
  call_of-Safe (Requests.ask_contact chat lang) =
      Quiet-Safe env _ (ConsentCalls.request_contact-Quiet env chat lang)
  call_of-Safe (Requests.link_chat chat raw_phone) =
      Quiet-Safe env _ (ConsentCalls.link_telegram-Quiet env chat raw_phone)
  call_of-Safe (Requests.unlink_chat chat) =
      Quiet-Safe env _ (ConsentCalls.unlink_telegram-Quiet env chat)
  call_of-Safe (Requests.link_number raw_phone lang enabled) =
      Quiet-Safe env _ (ConsentCalls.link_whatsapp-Quiet env raw_phone lang enabled)
  call_of-Safe (Requests.choose_language raw_phone hint explicit) = Quiet-Safe env _ (
      bind-Quiet env _ _ (ConsentCalls.resolve_language-Quiet env raw_phone hint explicit)
        (λ _. done-Quiet env _))
  call_of-Safe (Requests.receipt reference raw_phone state) =
      Quiet-Safe env _ (CheckCalls.whatsapp_status-Quiet env reference raw_phone state)
  call_of-Safe (Requests.remind record_id phone proof minutes) =
      Quiet-Safe env _ (CheckCalls.queue_web_reminder-Quiet env record_id phone proof minutes)
  call_of-Safe (Requests.direct_send provider id) =
      Quiet-Safe env _ (ConsentCalls.record_direct_send-Quiet env provider id)
  call_of-Safe (Requests.block_channel guard) = Quiet-Safe env _ (Calls.block-Quiet env guard)

  -- Each call goes on by allowed steps from what it holds.
  abbrev Owns : Holdings → Pool → Type 0
  Owns [] [] = Unit
  Owns (h ∷ hs) (call ∷ calls) = Wp env call h (λ _ _. Unit {0}) × Owns hs calls
  Owns _ _ = ⊥

  -- A route is held or used once at most, and only if it stands among the attempts.
  abbrev Counted : Holdings → World → Type 0
  Counted hs w =
      (t : Sending)
      → (held_by t hs + count t w.sent ≤ 1)
        × (1 ≤ held_by t hs + count t w.sent → was_attempted env w t ≡ true)

  abbrev Sound : Pool → World → Type 0
  Sound calls w = (hs : Holdings) × Owns hs calls × Counted hs w

  advance-Wp :
      (call : Call (Unit {0})) (h : Option Sending) (w : World)
      → Wp env call h (λ _ _. Unit {0})
      → (h' : Option Sending) × Allowed env h h' w (advance call w).1
        × Wp env (advance call w).0 h' (λ _ _. Unit {0})
  unfolding Wp
  advance-Wp (done a) h w safe = (h, (λ t. (λ was. was, inl (omega arith))), tt)
  advance-Wp (step act next) h w safe = safe w

  -- What a step of one of the calls may do to what all of them hold.
  abbrev AllAllowed : Holdings → Holdings → World → World → Type 0
  AllAllowed hs hs' w w' =
      (t : Sending)
      → (was_attempted env w t ≡ true → was_attempted env w' t ≡ true)
        × ((held_by t hs' + count t w'.sent ≤ held_by t hs + count t w.sent)
            ⊎ ((was_attempted env w t ≡ false)
                × (was_attempted env w' t ≡ true)
                × (held_by t hs' + count t w'.sent ≤ 1 + (held_by t hs + count t w.sent))))

  head-AllAllowed :
      (h h' : Option Sending) (hs : Holdings) (w w' : World)
      → Allowed env h h' w w'
      → AllAllowed (h ∷ hs) (h' ∷ hs) w w'
  head-AllAllowed h h' hs w w' allowed = λ t. (
    (allowed t).0,
    elim (allowed t).1 [
      | inl le ↦ inl (omega (arith, le))
      | inr (not_yet, now_is, le) ↦ inr (not_yet, now_is, omega (arith, le))
    ],
  )

  tail-AllAllowed :
      (h : Option Sending) (hs hs' : Holdings) (w w' : World)
      → AllAllowed hs hs' w w'
      → AllAllowed (h ∷ hs) (h ∷ hs') w w'
  tail-AllAllowed h hs hs' w w' allowed = λ t. (
    (allowed t).0,
    elim (allowed t).1 [
      | inl le ↦ inl (omega (arith, le))
      | inr (not_yet, now_is, le) ↦ inr (not_yet, now_is, omega (arith, le))
    ],
  )

  take_turn-Owns :
      (n : ℕ) (calls : Pool) (hs : Holdings) (w : World)
      → Owns hs calls
      → (hs' : Holdings) × Owns hs' (take_turn n calls w).0
        × AllAllowed hs hs' w (take_turn n calls w).1
  unfolding take_turn
  take_turn-Owns n [] hs w own = (hs, own, λ t. (λ was. was, inl (omega arith)))
  take_turn-Owns n (call ∷ calls) [] w own = absurd own
  take_turn-Owns zero (call ∷ calls) (h ∷ hs) w own =
      let (h', allowed, rest) = advance-Wp call h w own.0 in
      (h' ∷ hs, (rest, own.1), head-AllAllowed h h' hs w (advance call w).1 allowed)
  take_turn-Owns (suc n) (call ∷ calls) (h ∷ hs) w own =
      let (hs', rest, allowed) = take_turn-Owns n calls hs w own.1 in
      (h ∷ hs', (own.0, rest), tail-AllAllowed h hs hs' w (take_turn n calls w).1 allowed)

  AllAllowed-Counted :
      (hs hs' : Holdings) (w w' : World) → AllAllowed hs hs' w w' → Counted hs w → Counted hs' w'
  AllAllowed-Counted hs hs' w w' allowed counted = λ t. elim (allowed t).1 [
    | inl le ↦ (
      omega (arith, le, (counted t).0),
      λ one. (allowed t).0 ((counted t).1 (omega (arith, le, one))),
    )
    | inr (not_yet, now_is, le) ↦ (omega (arith, le, unattempted t not_yet), λ one. now_is)
  ]
    where
      unattempted :
          (t : Sending) → was_attempted env w t ≡ false → held_by t hs + count t w.sent ≡ 0
      unattempted t not_yet = ground (arith, (counted t).1, not_yet)

  none-Counted : (hs : Holdings) (w : World) → Counted hs w → Counted (none ∷ hs) w
  none-Counted hs w counted =
      λ t. (omega (arith, (counted t).0), λ one. (counted t).1 (omega (arith, one)))

  perform-Sound :
      (action : Action) (calls : Pool) (w : World)
      → Sound calls w
      → Sound (perform env action calls w).0 (perform env action calls w).1
  unfolding perform
  perform-Sound (start request) calls w (hs, own, counted) =
      (none ∷ hs, (call_of-Safe request none, own), none-Counted hs w counted)
  perform-Sound (tick d) calls w sound = sound
  perform-Sound (turn n) calls w (hs, own, counted) =
      let (hs', rest, allowed) = take_turn-Owns n calls hs w own in
      (hs', rest, AllAllowed-Counted hs hs' w (take_turn n calls w).1 allowed counted)

  perform_all-Sound :
      (actions : List Action) (calls : Pool) (w : World)
      → Sound calls w
      → Sound (perform_all env actions calls w).0 (perform_all env actions calls w).1
  unfolding perform_all
  perform_all-Sound [] calls w sound = sound
  perform_all-Sound (action ∷ actions) calls w sound =
      perform_all-Sound actions _ _ (perform-Sound action calls w sound)

module _ (env : Env) where
  unsent-Counted : (w : World) → w.sent ≡ [] → Counted env [] w
  unsent-Counted w none_yet = λ t.
      let zero_sent = ap (count t) none_yet in
      (omega (arith, zero_sent), λ one. absurd (omega (arith, zero_sent, one)))

  zero_or_attempted :
      (hs : Holdings) (w : World) (t : Sending)
      → Counted env hs w
      → (count t w.sent ≡ 0) ⊎ (was_attempted env w t ≡ true)
  zero_or_attempted hs w t counted = elim (Bool-cases (leb 1 (count t w.sent))) [
    | inl p ↦ inr ((counted t).1 (ground (arith, p)))
    | inr p ↦ inl (ground (arith, p))
  ]

-- However the steps of any calls of the service are interleaved, with waits between them and with
-- calls that stop half-way, whatever the repository holds at first and whatever the collaborators
-- and a failing repository answer, `Deliver` hands a notification to each of its routes at most
-- once; and if it has done so, the route stands among the attempts in the notification's delivery
-- row.
pub sends-le-one :
    (env : Env) (actions : List Action) (w : World) (t : Sending)
    → w.sent ≡ []
    → (count t (perform_all env actions [] w).1.sent ≤ 1)
      × ((count t (perform_all env actions [] w).1.sent ≡ 0)
          ⊎ (was_attempted env (perform_all env actions [] w).1 t ≡ true))
sends-le-one env actions w t none_yet =
    let (hs, own, counted) =
      perform_all-Sound env actions [] w ([], tt, unsent-Counted env w none_yet) in
    (
      omega (arith, (counted t).0),
      zero_or_attempted env hs (perform_all env actions [] w).1 t counted,
    )
