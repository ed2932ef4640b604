-- ===== src/Reminders/Sending/Keeps.antt =====
-- The steps of a delivery that leave its claimed reminder alone, and hand nothing to a sender.
use omnichannel_booking_assi.Prelude.{
  ℕ, ◌+◌, ◌≡◌, refl, ◌∙◌, String, Bool, not, ◌&&◌, ◌||◌, Option, none, some, ◌==◌, eqb, arith,
  if◌then◌else◌,
}
use omnichannel_booking_assi.Prelude.Time.{Time, after}
use omnichannel_booking_assi.Domain.Errors.{Error, Result, ok, err, wrapped}
use omnichannel_booking_assi.Domain.Booking.{Booking, is_confirmed}
use omnichannel_booking_assi.Domain.Conversation.{Conversation, Message}
use omnichannel_booking_assi.Domain.Reminder.{Reminder, terminal, validate}
use omnichannel_booking_assi.Memory.Store.{Store}
use omnichannel_booking_assi.Memory.Bookings.{save_booking, find_in, list_bookings}
use omnichannel_booking_assi.Memory.Transcript.{append}
use omnichannel_booking_assi.Memory.Reminders.{ensure_reminder, find_reminder}
use omnichannel_booking_assi.Memory.Reminders.Steps.{at_id}
use omnichannel_booking_assi.Memory.Reminders.Lease.{ensure_kept}
use omnichannel_booking_assi.Memory.Reminders.Own.{IsOwn, ensure-IsOwn}
use omnichannel_booking_assi.Domain.Messaging.{telegram}
use omnichannel_booking_assi.Reminders.Service.{Env, World, schedule_wake, supports_reminder}
use omnichannel_booking_assi.Reminders.Plan.{
  plan, add_neg, new_reminder, schedule_stored, ensure_and_schedule,
}
use omnichannel_booking_assi.Reminders.Current.{
  current_booking, is_current, replan, refreshed, read_live, conversation_of,
}
use omnichannel_booking_assi.Domain.Rules.{if_rule, option_rule, result_rule}

-- A stored reminder stays, a reminder is stored under its own id, and no message is handed to a sender.
pub record Keeps (w w' : World) : Type 0 where
  pub stored : (id : String) (r : Reminder) → at_id w.store id ≡ some r → at_id w'.store id ≡ some r
  pub own : (id : String) → IsOwn id w.store → IsOwn id w'.store
  pub sends : w'.sends ≡ w.sends

append-reminders : (s : Store) (m : Message) → (append s m).reminders ≡ s.reminders
unfolding append
append-reminders s m = ground arith

pub append-Keeps : (w : World) (m : Message) → Keeps w (record w { store = append w.store m })
append-Keeps w m = record {
  stored = λ id r h. ground (arith, append-reminders w.store m);
  own = λ id own r h. own r (ground (arith, append-reminders w.store m));
  sends = refl;
}

pub Keeps-refl : (w : World) → Keeps w w
Keeps-refl w = record { stored = λ id r h. h; own = λ id h. h; sends = refl }

Keeps-trans : (u v w : World) → Keeps u v → Keeps v w → Keeps u w
Keeps-trans u v w h k = record {
  stored = λ id r e. k.stored id r (h.stored id r e);
  own = λ id e. k.own id (h.own id e);
  sends = k.sends ∙ h.sends;
}

module _ (env : Env) where
  pub schedule_wake-Keeps :
      (w : World) (x : Reminder) (now : Time) → Keeps w (schedule_wake env w x now).0
  unfolding schedule_wake
  schedule_wake-Keeps w x now = record {
    stored = λ id r h. ground arith;
    own = λ id h. ground arith;
    sends = ground arith;
  }

  ensure-Keeps :
      (w : World) (x : Reminder) → Keeps w (record w { store = (ensure_reminder w.store x).0 })
  ensure-Keeps w x = record {
    stored = λ id r. ensure_kept id r w.store x;
    own = λ id. ensure-IsOwn id w.store x;
    sends = refl;
  }

  schedule_stored-Keeps :
      (w : World) (x : String) (now : Time) → Keeps w (schedule_stored env w x now).0
  unfolding schedule_stored
  schedule_stored-Keeps w x now =
      let P = λ (p : World × Option Error). Keeps w p.0 in
      result_rule P (find_reminder w.store x)
        (λ y _. if_rule P (terminal y) (λ _. Keeps-refl w) (λ _. schedule_wake-Keeps w y now))
        (λ e _. Keeps-refl w)

  ensure_and_schedule-Keeps :
      (w : World) (x : Reminder) (now : Time) → Keeps w (ensure_and_schedule env w x now).0
  unfolding ensure_and_schedule
  ensure_and_schedule-Keeps w x now =
      let P = λ (p : World × Option Error). Keeps w p.0 in
      let w' = record w { store = (ensure_reminder w.store x).0 } in
      option_rule P (ensure_reminder w.store x).1
        (λ _.
          Keeps-trans w w' (schedule_stored env w' x.id now).0 (ensure-Keeps w x)
            (schedule_stored-Keeps w' x.id now))
        (λ e _. ensure-Keeps w x)

  pub plan-Keeps :
      (w : World) (b : Booking) (conv : Conversation) (language : String) (n : ℕ)
      → Keeps w (plan env w b conv language n).0
  unfolding plan
  plan-Keeps w b conv language n =
      let P = λ (p : World × Option Error). Keeps w p.0 in
      let same = Keeps-refl w in
      let due_at = add_neg b.starts_at env.lead_time in
      let x = new_reminder env b conv language due_at (env.clock (n + 1)) in
      let silent : Bool =
        not (supports_reminder env conv.provider language)
        || not (conv.provider == telegram) && not conv.reminder_opt_in in
      let past : Bool = not (after due_at (env.clock n)) in
      let checked : World × Option Error = elim (validate x) [
        | some e ↦ (w, some (wrapped "plan reminder" e))
        | none ↦ ensure_and_schedule env w x (env.clock (n + 2))
      ] in
      if_rule P silent {x = (w, none)} {y = if past then (w, none) else checked} (λ _. same)
        (λ _.
          if_rule P past {x = (w, none)} {y = checked} (λ _. same)
            (λ _.
              option_rule P (validate x) (λ _. ensure_and_schedule-Keeps w x (env.clock (n + 2)))
                (λ e _. same)))

  save-Keeps : (w : World) (b : Booking) → Keeps w (record w { store = save_booking w.store b })
  unfolding save_booking
  save-Keeps w b = record { stored = λ id r h. h; own = λ id h. h; sends = refl }

  replan-Keeps : (w : World) (b : Booking) (x : Reminder) → Keeps w (replan env w b x).0
  unfolding replan
  replan-Keeps w b x =
      result_rule (λ (p : World × Option Error). Keeps w p.0) (conversation_of env w x)
        (λ conv _. plan-Keeps w b conv x.language 1) (λ e _. Keeps-refl w)

  refreshed-Keeps : (w : World) (b : Booking) (x : Reminder) → Keeps w (refreshed env w b x).0
  unfolding refreshed
  refreshed-Keeps w b x =
      let P = λ (p : World × Result (Booking × Bool)). Keeps w p.0 in
      let w' = record w { store = save_booking w.store b } in
      let moved = replan env w' b x in
      let kept = Keeps-trans w w' moved.0 (save-Keeps w b) (replan-Keeps w' b x) in
      let answer : Result (Booking × Bool) = ok (b, is_current b x (env.clock 4)) in
      if_rule P (is_confirmed b.status && not (eqb b.starts_at x.expected_starts_at))
        {x = elim moved.1 [ some e ↦ (moved.0, err e) | none ↦ (moved.0, answer) ]}
        {y = (w', answer)} (λ _. option_rule P moved.1 (λ _. kept) (λ e _. kept))
        (λ _. save-Keeps w b)

  read_live-Keeps : (w : World) (b : Booking) (x : Reminder) → Keeps w (read_live env w b x).0
  unfolding read_live
  read_live-Keeps w b x =
      let P = λ (p : World × Result (Booking × Bool)). Keeps w p.0 in
      let same = Keeps-refl w in
      option_rule P env.reader (λ _. same)
        (λ read _.
          if_rule P (is_confirmed b.status)
            (λ _. result_rule P (read b) (λ fresh _. refreshed-Keeps w fresh x) (λ e _. same))
            (λ _. same))

  pub current_booking-Keeps : (w : World) (x : Reminder) → Keeps w (current_booking env w x).0
  unfolding current_booking
  current_booking-Keeps w x =
      option_rule (λ (p : World × Result (Option Booking)). Keeps w p.0)
        (find_in (list_bookings w.store x.customer_id) x.booking_external_id) (λ _. Keeps-refl w)
        (λ b _. read_live-Keeps w b x)
