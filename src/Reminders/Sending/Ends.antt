-- ===== src/Reminders/Sending/Ends.antt =====
-- The three ends of a delivery that has claimed its reminder.
use omnichannel_booking_assi.Prelude.{
  ℕ, suc, ◌≡◌, refl, ap, ◌∙◌, String, true, false, not, ◌==◌, none, some, [], ◌∷◌, ◌++◌, arith,
  eq_refl, if◌then◌else◌,
}
use omnichannel_booking_assi.Prelude.Dict.{lookup-insert_self}
use omnichannel_booking_assi.Prelude.Time.{Time}
use omnichannel_booking_assi.Domain.Errors.{Error, ok, err, message, wrapped}
use omnichannel_booking_assi.Domain.Rules.{if_rule, option_rule, result_rule}
use omnichannel_booking_assi.Domain.Messaging.{Outgoing, telegram}
use omnichannel_booking_assi.Domain.Booking.{Booking}
use omnichannel_booking_assi.Domain.Reminder.{Reminder, Status, delivering, sent, skipped, is_final}
use omnichannel_booking_assi.Memory.Conversations.{find_by_id}
use omnichannel_booking_assi.Memory.Transcript.{append}
use omnichannel_booking_assi.Memory.Reminders.{finish_reminder}
use omnichannel_booking_assi.Memory.Reminders.Steps.{finish_call, apply, at_id}
use omnichannel_booking_assi.Reminders.Service.{Env, World, Sender, Sending, supports_reminder}
use omnichannel_booking_assi.Reminders.Current.{current_booking}
use omnichannel_booking_assi.Reminders.Deliver.{
  Progress, finish, outgoing_of, answer, record_of, skip, give_up, record_sent, send_to,
  deliver_current, deliver_consented, deliver_supported, deliver_claimed,
}
use omnichannel_booking_assi.Reminders.Sending.Keeps.{Keeps, current_booking-Keeps, append-Keeps}
use omnichannel_booking_assi.Reminders.Sending.Evolves.{
  handed, handed-append, Evolves, Evolves-refl, Evolves-trans, Keeps-Evolves, call-Evolves,
}

-- How a delivery of the claimed reminder `r` ends, if `n` messages had been accepted before: the claim
-- is to be released and nothing was sent; or the reminder is skipped; or it is sent, by one message.
pub data End (r : Reminder) (n : ℕ) (p : Progress) : Type 0 where
  retryable :
      p.unreleased ≡ true
      → (e : Error) → p.failure ≡ some e
      → at_id p.world.store r.id ≡ some r
      → handed p.world.sends ≡ n
      → End r n p
  dropped :
      p.unreleased ≡ false
      → p.failure ≡ none
      → (r' : Reminder) → at_id p.world.store r.id ≡ some r'
      → r'.status ≡ skipped
      → handed p.world.sends ≡ n
      → End r n p
  delivered :
      p.unreleased ≡ false
      → p.failure ≡ none
      → (r' : Reminder) → at_id p.world.store r.id ≡ some r'
      → r'.status ≡ sent
      → handed p.world.sends ≡ suc n
      → End r n p

finish-held :
    (w : World) (r x : Reminder) (status : Status) (at : Time)
    → r.status ≡ delivering
    → x.id ≡ r.id
    → at_id w.store r.id ≡ some r
    → is_final status ≡ true
    → ((finish w x r.claim_id status at).1 ≡ none)
      × (at_id (finish w x r.claim_id status at).0.store r.id
          ≡ some (record r { status = status; finished_at = at; claim_id = ""; claim_expires = 0 }))
unfolding finish finish_reminder
finish-held w r x status at d same h f =
    let r' : Reminder = record r {
      status = status;
      finished_at = at;
      claim_id = "";
      claim_expires = 0;
    } in
    (
      ground (arith, eq_refl r.claim_id),
      ground (arith, eq_refl r.claim_id, lookup-insert_self r.id r' w.store.reminders),
    )

finish-Evolves :
    (w : World) (x : Reminder) (claim_id : String) (status : Status) (at : Time)
    → Evolves w (finish w x claim_id status at).0
unfolding finish apply
finish-Evolves w x claim_id status at = call-Evolves w (finish_call x.id claim_id status at)

module _ (env : Env) (r : Reminder) (held : r.status ≡ delivering) (w0 : World) where
  -- Up to now the delivery has sent nothing, and the reminder is still claimed.
  record Held (w : World) : Type 0 where
    pub stored : at_id w.store r.id ≡ some r
    pub evolves : Evolves w0 w
    pub unsent : handed w.sends ≡ handed w0.sends

  record Ended (p : Progress) : Type 0 where
    pub end : End r (handed w0.sends) p
    pub evolves : Evolves w0 p.world

  Keeps-Held : (w w' : World) → Keeps w w' → Held w → Held w'
  Keeps-Held w w' k h = record {
    stored = k.stored r.id r h.stored;
    evolves = Evolves-trans w0 w w' h.evolves (Keeps-Evolves w w' k);
    unsent = ap handed k.sends ∙ h.unsent;
  }

  give_up_ends : (w : World) (e : Error) → Held w → Ended (give_up w e)
  give_up_ends w e h = record { end = retryable refl e refl h.stored h.unsent; evolves = h.evolves }

  skip_ends :
      (w : World) (x : Reminder) (at : Time) → x.id ≡ r.id → Held w → Ended (skip w x r.claim_id at)
  unfolding skip finish
  skip_ends w x at same h =
      let (fine, stored) = finish-held w r x skipped at held same h.stored refl in
      record {
        end = dropped refl fine _ stored refl (ground arith);
        evolves = Evolves-trans w0 w _ h.evolves (finish-Evolves w x r.claim_id skipped at);
      }

  record_sent_ends :
      (w : World) (x : Reminder) (outgoing : Outgoing) (at : Time)
      → x.id ≡ r.id
      → at_id w.store r.id ≡ some r
      → Evolves w0 w
      → handed w.sends ≡ suc (handed w0.sends)
      → Ended (record_sent env w x r.claim_id outgoing at)
  unfolding record_sent finish
  record_sent_ends w x outgoing at same h evolves one =
      let stored = (finish-held w r x sent at held same h refl).1 in
      let r' : Reminder = record r {
        status = sent;
        finished_at = at;
        claim_id = "";
        claim_expires = 0;
      } in
      let u = (finish w x r.claim_id sent at).0 in
      let m = record_of env x outgoing at in
      let kept = append-Keeps u m in
      let v = record u { store = append u.store m } in
      record {
        end = delivered refl refl r' (kept.stored r.id r' stored) refl one;
        evolves =
            Evolves-trans w0 u v
              (Evolves-trans w0 w u evolves (finish-Evolves w x r.claim_id sent at))
              (Keeps-Evolves u v kept);
      }

  send_ends :
      (w : World) (sender : Sender) (x : Reminder) (b : Booking) (at : Time)
      → x.id ≡ r.id
      → Held w
      → Ended (send_to env w sender x r.claim_id b at)
  unfolding send_to handed
  send_ends w sender x b at same h =
      let outgoing = outgoing_of env x b in
      let outcome = answer env sender x b outgoing in
      let sending : Sending = record { message = outgoing; outcome = outcome } in
      let w' = record w { sends = w.sends ++ sending ∷ [] } in
      let count = handed-append w.sends sending in
      let evolves : Evolves w0 w' = record { finals = h.evolves.finals; own = h.evolves.own } in
      option_rule Ended outcome
        (λ e. record_sent_ends w' x outgoing at same h.stored evolves (ground (arith, h.unsent)))
        (λ failure e.
          give_up_ends w' (wrapped "deliver reminder: send" failure)
            (record { stored = h.stored; evolves = evolves; unsent = ground (arith, h.unsent) }))

  current_ends :
      (w : World) (x : Reminder) (at : Time)
      → x.id ≡ r.id
      → Held w
      → Ended (deliver_current env w x r.claim_id at)
  unfolding deliver_current
  current_ends w x at same h =
      let (w', found) = current_booking env w x in
      let h' = Keeps-Held w w' (current_booking-Keeps env w x) h in
      result_rule Ended found
        (λ o _.
          option_rule Ended o (λ _. skip_ends w' x at same h')
            (λ b _.
              option_rule Ended (env.senders x.provider)
                (λ _. give_up_ends w' (message "deliver reminder: no sender configured") h')
                (λ sender _. send_ends w' sender x b at same h')))
        (λ e _. give_up_ends w' (wrapped "deliver reminder: read booking" e) h')

  consented_ends :
      (w : World) (x : Reminder) (at : Time)
      → x.id ≡ r.id
      → Held w
      → Ended (deliver_consented env w x r.claim_id at)
  unfolding deliver_consented
  consented_ends w x at same h =
      let now = deliver_current env w x r.claim_id at in
      let skipping = skip w x r.claim_id at in
      let unavailable = give_up w (message "reminder consent repository unavailable") in
      let asked : Progress = elim (find_by_id w.store x.conversation_id) [
        | err e ↦ give_up w e
        | ok conv ↦ if conv.reminder_opt_in then now else skipping
      ] in
      let sent_now = current_ends w x at same h in
      if_rule Ended (x.provider == telegram) {x = now}
        {y = if not env.has_conversations then unavailable else asked} (λ _. sent_now)
        (λ _.
          if_rule Ended (not env.has_conversations) {x = unavailable} {y = asked}
            (λ _. give_up_ends w (message "reminder consent repository unavailable") h)
            (λ _.
              result_rule Ended (find_by_id w.store x.conversation_id)
                (λ conv _.
                  if_rule Ended conv.reminder_opt_in {x = now} {y = skipping} (λ _. sent_now)
                    (λ _. skip_ends w x at same h))
                (λ e _. give_up_ends w e h)))

  supported_ends :
      (w : World) (x : Reminder) (at : Time)
      → x.id ≡ r.id
      → Held w
      → Ended (deliver_supported env w x r.claim_id at)
  unfolding deliver_supported
  supported_ends w x at same h =
      if_rule Ended (supports_reminder env x.provider x.language)
        {x = deliver_consented env w x r.claim_id at} {y = skip w x r.claim_id at}
        (λ _. consented_ends w x at same h) (λ _. skip_ends w x at same h)

  claimed_ends : (w : World) (at : Time) → Held w → Ended (deliver_claimed env w r r.claim_id at)
  unfolding deliver_claimed
  claimed_ends w at h =
      option_rule Ended env.resolve_language (λ _. supported_ends w r at refl h)
        (λ resolve _.
          result_rule Ended (resolve r.provider r.external_thread_id r.language)
            (λ lang _. supported_ends w (record r { language = lang }) at refl h)
            (λ e _. give_up_ends w e h))

-- A delivery that holds the claim of its stored reminder, whatever the environment answers, ends in
-- one of three ways: with an error, nothing accepted by a sender, the reminder still claimed and
-- the claim to be released; without an error, nothing accepted, and the reminder skipped; or
-- without an error, one message accepted, and the reminder sent.
pub deliver_claimed-End :
    (env : Env) (w : World) (r : Reminder) (now : Time)
    → r.status ≡ delivering
    → at_id w.store r.id ≡ some r
    → End r (handed w.sends) (deliver_claimed env w r r.claim_id now)
deliver_claimed-End env w r now held stored =
    (claimed_ends env r held w w now
      (record { stored = stored; evolves = Evolves-refl w; unsent = refl })).end

pub deliver_claimed-Evolves :
    (env : Env) (w : World) (r : Reminder) (now : Time)
    → r.status ≡ delivering
    → at_id w.store r.id ≡ some r
    → Evolves w (deliver_claimed env w r r.claim_id now).world
deliver_claimed-Evolves env w r now held stored =
    (claimed_ends env r held w w now
      (record { stored = stored; evolves = Evolves-refl w; unsent = refl })).evolves
