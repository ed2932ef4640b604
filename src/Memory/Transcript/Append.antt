-- ===== src/Memory/Transcript/Append.antt =====
-- A message is stored once, in its own conversation, and the recent ones are the last ones.
use mathlib.Core.Logic.Or
use mathlib.Core.HLevel.{⊥_prop}
use mathlib.Core.List.{Mem, mem-cons, mem-cons_self, mem-cons_of_mem, not-mem-nil}
use omnichannel_booking_assi.Prelude.{
  ◌↔◌, ◌∙◌, ◌⊎◌, is_empty, is_empty→ne, ne→is_empty, false, ◌-◌, ◌≡◌, ◌≢◌, refl, ap, str_cases,
  eq_iff, inl, inr, String, true, ◌&&◌, List, [], ◌∷◌, ◌++◌, arith, eq_refl, length, length-drop,
  take, take-append-drop, ltb, Bool-cases, if◌then◌else◌, min,
}
use omnichannel_booking_assi.Prelude.Int.{ℤ, pos, pos_part, ltb_ℤ}
use omnichannel_booking_assi.Prelude.Dict.{lookup-insert_self, lookup-insert_ne}
use omnichannel_booking_assi.Domain.Conversation.{Message}
use omnichannel_booking_assi.Memory.Store.{Store, get_list}
use omnichannel_booking_assi.Memory.Transcript.{
  transcript, append, recent, is_recorded, is_same_message,
}

is_recorded-append : (xs : List Message) (m : Message) → is_recorded (xs ++ m ∷ []) m ≡ true
unfolding is_recorded
is_recorded-append [] m = ground (arith, eq_refl m.id)
is_recorded-append (x ∷ xs) m = ground (arith, is_recorded-append xs m)

transcript_self :
    (s : Store) (m : Message)
    → transcript (append s m) m.conversation_id ≡ (
        let all = transcript s m.conversation_id in
        if is_recorded all m then all else all ++ m ∷ [])
unfolding append
transcript_self s m = elim (Bool-cases (is_recorded (transcript s m.conversation_id) m)) [
  | inl old ↦ rw old
  | inr new ↦ rw (new, lookup-insert_self)
]

transcript_ne :
    (s : Store) (m : Message) (id : String)
    → m.conversation_id ≢ id
    → transcript (append s m) id ≡ transcript s id
unfolding append
transcript_ne s m id h = elim (Bool-cases (is_recorded (transcript s m.conversation_id) m)) [
  | inl old ↦ rw old
  | inr new ↦ rw new (ap get_list (lookup-insert_ne m.conversation_id id _ s.messages h))
]

-- The transcript has a message of the same id, or of the same external id, if there is one.
abbrev pub IsRepeat : List Message → Message → Type 0
IsRepeat all m =
    (old : Message) × Mem old all
    × ((old.id ≡ m.id)
        ⊎ (m.external_message_id ≢ "") × (old.external_message_id ≡ m.external_message_id))

is_same_message_iff :
    (old m : Message)
    → (is_same_message old m ≡ true) ↔ (
        (old.id ≡ m.id)
        ⊎ (m.external_message_id ≢ "") × (old.external_message_id ≡ m.external_message_id))
is_same_message_iff old m =
    let ids = eq_iff old.id m.id in
    let externals = eq_iff old.external_message_id m.external_message_id in
    let given : (is_empty m.external_message_id ≡ false) ↔ (m.external_message_id ≢ "") =
      (is_empty→ne m.external_message_id, ne→is_empty m.external_message_id) in
    (λ h. ground (arith, ids, externals, given, h), λ h. ground (arith, ids, externals, given, h))

is_recorded-IsRepeat :
    (all : List Message) (m : Message) → is_recorded all m ≡ true → IsRepeat all m
unfolding is_recorded
is_recorded-IsRepeat [] m h = cc
is_recorded-IsRepeat (x ∷ xs) m h = elim (Bool-cases (is_same_message x m)) [
  | inl same ↦ (x, mem-cons_self, (is_same_message_iff x m).0 same)
  | inr other ↦
      let (old, found, e) = is_recorded-IsRepeat xs m (ground (arith, h, other)) in
      (old, mem-cons_of_mem x found, e)
]

unrecorded :
    (all : List Message) (m old : Message)
    → is_recorded all m ≡ false
    → is_same_message old m ≡ true
    → ¬ Mem old all
unfolding is_recorded
unrecorded [] m old new same h = not-mem-nil h
unrecorded (x ∷ xs) m old new same h =
    Or.elim ⊥_prop (mem-cons.0 h)
      (λ e. let here : is_same_message x m ≡ true = rw (← e) same in ground (arith, here, new))
      (unrecorded xs m old (ground (arith, new)) same)

IsRepeat-cases :
    (all : List Message) (m : Message)
    → ((is_recorded all m ≡ true) × IsRepeat all m)
      ⊎ ((is_recorded all m ≡ false) × ¬ IsRepeat all m)
IsRepeat-cases all m = elim (Bool-cases (is_recorded all m)) [
  | inl old ↦ inl (old, is_recorded-IsRepeat all m old)
  | inr new ↦ inr (
    new,
    λ (old, found, same). unrecorded all m old new ((is_same_message_iff old m).1 same) found,
  )
]

-- The message goes to the end of its conversation's transcript if that has no message like it, and a
-- transcript does not change otherwise.
abbrev pub Appended : Store → Message → String → Type 0
Appended s m id =
    (m.conversation_id ≡ id)
      × ¬ IsRepeat (transcript s id) m
      × (transcript (append s m) id ≡ transcript s id ++ m ∷ [])
    ⊎ ((m.conversation_id ≢ id) ⊎ IsRepeat (transcript s id) m)
      × (transcript (append s m) id ≡ transcript s id)

append_again : (s : Store) (m : Message) → append (append s m) m ≡ append s m
append_again s m =
    let all = transcript s m.conversation_id in
    let recorded : is_recorded (transcript (append s m) m.conversation_id) m ≡ true =
      elim (Bool-cases (is_recorded all m)) [
        | inl old ↦ rw (transcript_self s m, old) old
        | inr new ↦ rw (transcript_self s m, new) (is_recorded-append all m)
      ] in
    unfold append in rw recorded

-- An appended message goes to the end of its conversation's transcript if that has no message with
-- its id, and, when it has an external id, none with that external id; otherwise, and for every
-- other conversation, the transcript stays as it is; and appending it again changes nothing.
pub append_lem :
    (s : Store) (m : Message)
    → ((id : String) → Appended s m id) × (append (append s m) m ≡ append s m)
append_lem s m = (
  λ id. elim (str_cases m.conversation_id id) [
    | inl same ↦ elim (IsRepeat-cases (transcript s m.conversation_id) m) [
      | inl (old, like) ↦ rw (← same) (inr (inr like, transcript_self s m ∙ rw old refl))
      | inr (new, unlike) ↦ rw (← same) (inl (refl, unlike, transcript_self s m ∙ rw new refl))
    ]
    | inr ne ↦ inr (inl ne, transcript_ne s m id ne)
  ],
  append_again s m,
)

-- `Recent` returns the end of the transcript: as many of the last messages as the limit allows, and
-- all of them if the limit is not positive.
pub recent_lem :
    (s : Store) (id : String) (limit : ℤ)
    → let all = transcript s id in
      let shown = recent s id limit in
      ((older : List Message) × (older ++ shown ≡ all))
      × (length shown
          ≡ (if ltb_ℤ (pos 0) limit then min (pos_part limit) (length all) else length all))
unfolding recent
recent_lem s id limit =
    let all = transcript s id in
    let n = length all - pos_part limit in
    elim (Bool-cases (ltb_ℤ (pos 0) limit && ltb (pos_part limit) (length all))) [
      | inl cut ↦ rw cut ((take n all, take-append-drop n all), ground (arith, length-drop n all))
      | inr whole ↦ rw whole (([], refl), ground arith)
    ]
