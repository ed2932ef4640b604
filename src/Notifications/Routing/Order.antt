-- ===== src/Notifications/Routing/Order.antt =====
-- A plan tries the messengers in the policy's order, then a text message, and no channel twice.
use omnichannel_booking_assi.Prelude.{
  ◌≡◌, refl, ap, inl, inr, String, true, false, Option, some, List, [], ◌∷◌, ◌++◌, arith, eq_iff,
  eq_refl, Bool-cases, Option-cases,
}
use omnichannel_booking_assi.Domain.Errors.{Result, ok, err}
use omnichannel_booking_assi.Domain.Phone.{normalize_phone}
use omnichannel_booking_assi.Notifications.Routing.{
  Channel, telegram, whatsapp, sms, other, Purpose, Recipient, Policy, Target, is_verification,
  member, same_channel, valid_order, order_of, telegram_target, whatsapp_target, target_of,
  messenger_targets, sms_targets, targets, plan,
}

-- What is left of a list when some of its elements are dropped.
pub data IsSublist : List Channel → List Channel → Type 0 where
  done : IsSublist [] []
  keep : {cs ds : List Channel} (c : Channel) → IsSublist cs ds → IsSublist (c ∷ cs) (c ∷ ds)
  skip : {cs ds : List Channel} (c : Channel) → IsSublist cs ds → IsSublist cs (c ∷ ds)

-- No channel stands twice.
abbrev pub AreDistinct : List Channel → Type 0
AreDistinct [] = Unit
AreDistinct (c ∷ cs) = (member c cs ≡ false) × AreDistinct cs

abbrev pub channels : List Target → List Channel
channels [] = []
channels (t ∷ ts) = t.channel ∷ channels ts

none_sublist : (cs : List Channel) → IsSublist [] cs
none_sublist [] = done
none_sublist (c ∷ cs) = skip c (none_sublist cs)

append_sublist :
    {es fs : List Channel} (cs ds : List Channel)
    → IsSublist es fs
    → IsSublist cs ds
    → IsSublist (es ++ cs) (fs ++ ds)
append_sublist cs ds done k = k
append_sublist cs ds (keep c h) k = keep c (append_sublist cs ds h k)
append_sublist cs ds (skip c h) k = skip c (append_sublist cs ds h k)

channels-append : (ts us : List Target) → channels (ts ++ us) ≡ channels ts ++ channels us
channels-append [] us = refl
channels-append (t ∷ ts) us = rw (channels-append ts us)

member_sublist :
    {cs ds : List Channel} (c : Channel)
    → IsSublist cs ds
    → member c ds ≡ false
    → member c cs ≡ false
member_sublist c done h = h
member_sublist c (keep d s) h = ground (arith, member_sublist c s)
member_sublist c (skip d s) h = member_sublist c s (ground arith)

sublist-AreDistinct : {cs ds : List Channel} → IsSublist cs ds → AreDistinct ds → AreDistinct cs
sublist-AreDistinct done h = tt
sublist-AreDistinct (keep c s) h = (member_sublist c s h.0, sublist-AreDistinct s h.1)
sublist-AreDistinct (skip c s) h = sublist-AreDistinct s h.1

same_channel-sym : (c d : Channel) → same_channel c d ≡ same_channel d c
same_channel-sym telegram telegram = refl
same_channel-sym whatsapp whatsapp = refl
same_channel-sym sms sms = refl
same_channel-sym (other s) (other t) = ground (arith, eq_iff s t, eq_iff t s)
same_channel-sym c d = refl

same_channel→eq : (c d : Channel) → same_channel c d ≡ true → c ≡ d
same_channel→eq telegram telegram h = refl
same_channel→eq whatsapp whatsapp h = refl
same_channel→eq sms sms h = refl
same_channel→eq (other s) (other t) h = ap other ((eq_iff s t).0 h)
same_channel→eq c d h = cc

same_channel_refl : (c : Channel) → same_channel c c ≡ true
same_channel_refl (other s) = eq_refl s
same_channel_refl c = refl

-- The channels that were seen do not come again.
seen_absent :
    (seen cs : List Channel) (d : Channel)
    → valid_order seen cs ≡ true
    → member d seen ≡ true
    → member d cs ≡ false
unfolding valid_order
seen_absent seen [] d h m = refl
seen_absent seen (c ∷ cs) d h m = ground (arith, same_channel→eq d c, seen_absent (c ∷ seen) cs d)

valid-AreDistinct : (seen cs : List Channel) → valid_order seen cs ≡ true → AreDistinct cs
unfolding valid_order
valid-AreDistinct seen [] h = tt
valid-AreDistinct seen (c ∷ cs) h =
    let rest : valid_order (c ∷ seen) cs ≡ true = ground arith in
    (
      seen_absent (c ∷ seen) cs c rest (ground (arith, same_channel_refl c)),
      valid-AreDistinct (c ∷ seen) cs rest,
    )

-- A valid order has messengers only, so a text message at its end is new.
sms_absent : (seen cs : List Channel) → valid_order seen cs ≡ true → member sms cs ≡ false
unfolding valid_order
sms_absent seen [] h = refl
sms_absent seen (telegram ∷ cs) h = ground (arith, sms_absent (telegram ∷ seen) cs)
sms_absent seen (whatsapp ∷ cs) h = ground (arith, sms_absent (whatsapp ∷ seen) cs)
sms_absent seen (c ∷ cs) h = cc

member-append :
    (c : Channel) (cs ds : List Channel)
    → member c cs ≡ false
    → member c ds ≡ false
    → member c (cs ++ ds) ≡ false
member-append c [] ds h k = k
member-append c (d ∷ cs) ds h k = ground (arith, member-append c cs ds)

with_sms-AreDistinct :
    (cs : List Channel) → AreDistinct cs → member sms cs ≡ false → AreDistinct (cs ++ sms ∷ [])
with_sms-AreDistinct [] h k = (refl, tt)
with_sms-AreDistinct (c ∷ cs) h k =
    let other_way = same_channel-sym c sms in
    (member-append c cs (sms ∷ []) h.0 (ground arith), with_sms-AreDistinct cs h.1 (ground arith))

module _ (policy : Policy) (recipient : Recipient) (purpose : Purpose) (phone : String) where
  -- A target that a channel adds is on that channel.
  target-channel :
      (c : Channel) (t : Target)
      → target_of policy recipient purpose phone c ≡ some t
      → t.channel ≡ c
  unfolding target_of telegram_target whatsapp_target
  target-channel telegram t h = ground arith
  target-channel whatsapp t h = ground arith
  target-channel c t h = cc

  messengers_sublist :
      (cs : List Channel)
      → IsSublist (channels (messenger_targets policy recipient purpose phone cs)) cs
  unfolding messenger_targets
  messengers_sublist [] = done
  messengers_sublist (c ∷ cs) = elim (Option-cases (target_of policy recipient purpose phone c)) [
    | inl e ↦ rw (e, messenger_targets) (skip c (messengers_sublist cs))
    | inr (t, e) ↦
        rw (e, messenger_targets) (rw (target-channel c t e) (keep c (messengers_sublist cs)))
  ]

  sms_sublist : IsSublist (channels (sms_targets policy phone)) (sms ∷ [])
  sms_sublist = elim (Bool-cases (policy.enabled sms)) [
    | inl on ↦ rw on (keep sms done)
    | inr off ↦ rw off (skip sms done)
  ]

  targets_sublist :
      IsSublist (channels (targets policy recipient purpose phone)) (order_of policy ++ sms ∷ [])
  unfolding targets
  targets_sublist = elim (Bool-cases (is_verification purpose)) [
    | inl e ↦ rw e (
        append_sublist (channels (sms_targets policy phone)) (sms ∷ [])
          (none_sublist (order_of policy)) sms_sublist)
    | inr e ↦
        let ms = messenger_targets policy recipient purpose phone (order_of policy) in
        rw (e, channels-append ms (sms_targets policy phone))
          (append_sublist (channels (sms_targets policy phone)) (sms ∷ [])
            (messengers_sublist (order_of policy)) sms_sublist)
  ]

-- A plan tries channels of the policy's order (Telegram and then WhatsApp, if it has none), in that
-- order, then a text message as the last one, and no channel twice.
pub plan-IsSublist :
    (parse : String → Option String) (policy : Policy) (recipient : Recipient) (purpose : Purpose)
    (ts : List Target)
    → plan parse policy recipient purpose ≡ ok ts
    → IsSublist (channels ts) (order_of policy ++ sms ∷ []) × AreDistinct (channels ts)
unfolding plan
plan-IsSublist parse policy recipient purpose ts h = go (normalize_phone parse recipient.phone) refl
  where
    go :
        (r : Result String)
        → normalize_phone parse recipient.phone ≡ r
        → IsSublist (channels ts) (order_of policy ++ sms ∷ []) × AreDistinct (channels ts)
    go (err e) eq = absurd (ground arith)
    go (ok phone) eq =
        let same : targets policy recipient purpose phone ≡ ts = ground arith in
        let valid : valid_order [] (order_of policy) ≡ true = ground arith in
        let sub = targets_sublist policy recipient purpose phone in
        let all =
          with_sms-AreDistinct (order_of policy) (valid-AreDistinct [] (order_of policy) valid)
            (sms_absent [] (order_of policy) valid) in
        rw (← same) (sub, sublist-AreDistinct sub all)
