-- ===== src/Reminders/Sending/Once.antt =====
-- A customer gets a reminder once: over any run of plans and deliveries, one message at most is accepted for it.
use omnichannel_booking_assi.Prelude.{
  ℕ, suc, ◌+◌, ◌-◌, ◌≤◌, ◌≡◌, refl, ap, sym, subst, ◌⊎◌, inl, inr, String, true, false, ◌==◌, some,
  List, [], ◌∷◌, arith, eq_iff, if◌then◌else◌, Option-cases, Bool-cases,
}
use omnichannel_booking_assi.Domain.Booking.{Booking}
use omnichannel_booking_assi.Domain.Conversation.{Conversation}
use omnichannel_booking_assi.Domain.Reminder.{Reminder, is_final}
use omnichannel_booking_assi.Memory.Reminders.{find_reminder}
use omnichannel_booking_assi.Memory.Reminders.Steps.{at_id}
use omnichannel_booking_assi.Memory.Reminders.Own.{IsOwn}
use omnichannel_booking_assi.Reminders.Service.{Env, World}
use omnichannel_booking_assi.Reminders.Plan.{plan}
use omnichannel_booking_assi.Reminders.Deliver.{deliver}
use omnichannel_booking_assi.Reminders.Sending.Keeps.{plan-Keeps}
use omnichannel_booking_assi.Reminders.Sending.Evolves.{handed, Evolves, Keeps-Evolves}
use omnichannel_booking_assi.Reminders.Sending.Delivery.{
  Outcome, refused, repeated, queued, given_back, left_out, sent_out, deliver-Outcome,
  deliver-Evolves,
}

-- A call of the service, in the environment of that moment.
pub data Event : Type 0 where
  planning : Env → Booking → Conversation → String → Event
  delivery : Env → String → Event

abbrev pub after_event : World → Event → World
after_event w (planning env b conv language) = (plan env w b conv language 0).0
after_event w (delivery env k) = (deliver env w k).0

-- The messages that a call has a provider accept for the reminder.
abbrev pub sent_by : String → World → Event → ℕ
sent_by id w (planning env b conv language) = 0
sent_by id w (delivery env k) =
    if k == id then handed (deliver env w k).0.sends - handed w.sends else 0

unfoldable pub sent_for : String → World → List Event → ℕ
sent_for id w [] = 0
sent_for id w (e ∷ es) = sent_by id w e + sent_for id (after_event w e) es

event-Evolves :
    (w : World) (e : Event) → ((k : String) → IsOwn k w.store) → Evolves w (after_event w e)
event-Evolves w (planning env b conv language) own =
    Keeps-Evolves w _ (plan-Keeps env w b conv language 0)
event-Evolves w (delivery env k) own = deliver-Evolves env w k (own k)

-- One delivery of the reminder: nothing more is accepted, or one message is, and then the reminder was not
-- final and is.
abbrev SendsOnce : Env → World → String → Type 0
SendsOnce env w id =
    (handed (deliver env w id).0.sends ≡ handed w.sends)
    ⊎ (handed (deliver env w id).0.sends ≡ suc (handed w.sends))
      × ((r : Reminder) × (at_id w.store id ≡ some r) × (is_final r.status ≡ false))
      × ((r : Reminder) × (at_id (deliver env w id).0.store id ≡ some r)
          × (is_final r.status ≡ true))

Outcome-SendsOnce :
    (env : Env) (w : World) (r : Reminder)
    → at_id w.store r.id ≡ some r
    → Outcome w r (env.clock 0) (deliver env w r.id)
    → SendsOnce env w r.id
Outcome-SendsOnce env w r h (refused e x k n) = inl n
Outcome-SendsOnce env w r h (repeated f p) = inl (ap (λ q. handed q.0.sends) p)
Outcome-SendsOnce env w r h (queued x early t p i b) = inl (ap (λ q. handed q.sends) p)
Outcome-SendsOnce env w r h (given_back e x r' k s n) = inl n
Outcome-SendsOnce env w r h (left_out x r' k s n) = inl n
Outcome-SendsOnce env w r h (sent_out x r' k s n f) = inr (n, (r, h, f), (r', k, rw s refl))

deliver-SendsOnce : (env : Env) (w : World) (id : String) → IsOwn id w.store → SendsOnce env w id
unfolding deliver find_reminder
deliver-SendsOnce env w id own = elim (Option-cases (at_id w.store id)) [
  | inl absent ↦ rw (absent, deliver) (inl refl)
  | inr (r, h) ↦
      let same = own r h in
      let h' : at_id w.store r.id ≡ some r = subst (λ k. at_id w.store k ≡ some r) (sym same) h in
      subst (SendsOnce env w) same (Outcome-SendsOnce env w r h' (deliver-Outcome env w r h'))
]

-- An event sends nothing for a reminder that is final.
sent_by-final :
    (id : String) (w : World) (e : Event) (r : Reminder)
    → IsOwn id w.store
    → at_id w.store id ≡ some r
    → is_final r.status ≡ true
    → sent_by id w e ≡ 0
sent_by-final id w (planning env b conv language) r own h f = refl
sent_by-final id w (delivery env k) r own h f = elim (Bool-cases (k == id)) [
  | inr ne ↦ rw ne refl
  | inl e ↦ elim (deliver-SendsOnce env w id own) [
    | inl n ↦ ground (arith, eq_iff k id)
    | inr (n, (r', h', f'), later) ↦ absurd (ground arith)
  ]
]

sent_for-final :
    (id : String) (w : World) (es : List Event) (r : Reminder)
    → ((k : String) → IsOwn k w.store)
    → at_id w.store id ≡ some r
    → is_final r.status ≡ true
    → sent_for id w es ≡ 0
unfolding sent_for
sent_for-final id w [] r own h f = refl
sent_for-final id w (e ∷ es) r own h f =
    let k = event-Evolves w e own in
    let rest =
      sent_for-final id (after_event w e) es r (λ x. k.own x (own x)) (k.finals id r f h) f in
    rw (sent_by-final id w e r (own id) h f, rest) refl

sent_by-cases :
    (id : String) (w : World) (e : Event)
    → IsOwn id w.store
    → (sent_by id w e ≡ 0)
      ⊎ (sent_by id w e ≡ 1)
        × ((r : Reminder) × (at_id (after_event w e).store id ≡ some r)
            × (is_final r.status ≡ true))
sent_by-cases id w (planning env b conv language) own = inl refl
sent_by-cases id w (delivery env k) own = elim (Bool-cases (k == id)) [
  | inr ne ↦ inl (rw ne refl)
  | inl e ↦
      let same : k ≡ id = ground (arith, eq_iff k id) in
      elim (deliver-SendsOnce env w k (rw same own)) [
        | inl n ↦ inl (ground arith)
        | inr (n, before, (r, h, f)) ↦ inr (ground arith, (r, rw (← same) h, f))
      ]
]

-- Over any run of plans and deliveries, one after another, each with its own environment (answers
-- of the senders, clock, identifiers), from a world whose reminders are stored under their own ids:
-- one message at most is accepted (its sender returns no error) for a reminder.
pub sent_for-le-one :
    (id : String) (w : World) (es : List Event)
    → ((k : String) → IsOwn k w.store)
    → sent_for id w es ≤ 1
unfolding sent_for
sent_for-le-one id w [] own = omega arith
sent_for-le-one id w (e ∷ es) own =
    let k = event-Evolves w e own in
    elim (sent_by-cases id w e (own id)) [
      | inl none_sent ↦
          let rest = sent_for-le-one id (after_event w e) es (λ x. k.own x (own x)) in omega arith
      | inr (one_sent, (r, h, f)) ↦
          rw (one_sent, sent_for-final id (after_event w e) es r (λ x. k.own x (own x)) h f)
            (omega arith)
    ]
