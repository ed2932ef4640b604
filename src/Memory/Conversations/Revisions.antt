-- ===== src/Memory/Conversations/Revisions.antt =====
-- The revision of a stored conversation counts the takeovers by colleagues, and a copy that was
-- loaded before one of them cannot be saved.
use omnichannel_booking_assi.Prelude.{
  ◌⊎◌, inl, inr, Bool-cases, ltb, ltb→lt, ℕ, ◌+◌, ◌%◌, ◌^◌, ◌<◌, ◌≡◌, ◌≢◌, ap, ◌∙◌, inl, inr,
  String, not, ◌&&◌, ◌==◌, none, some, List, [], ◌∷◌, arith, eq_iff, eqb, str_cases, Bool-cases,
  if◌then◌else◌,
}
use omnichannel_booking_assi.Prelude.Dict.{lookup, lookup-insert, lookup-insert_ne}
use omnichannel_booking_assi.Prelude.Time.{Time}
use omnichannel_booking_assi.Domain.Errors.{external_reply_conflict}
use omnichannel_booking_assi.Domain.Conversation.{
  Conversation, Message, key, observe_external_reply,
}
use omnichannel_booking_assi.Memory.Store.{Store, get_list}
use omnichannel_booking_assi.Memory.Conversations.{
  find_or_open, save, record_external_reply, is_stale, is_replay, target,
}
use omnichannel_booking_assi.Memory.Conversations.Keyed.{
  Call, open_call, save_call, reply_call, apply, run, at_key, IsKeyed, observe-key, target-key,
  apply-IsKeyed,
}

-- 1 if the call records a reply that takes over the conversation of the key, else 0.
abbrev pub takes_over : String → Store → Call → ℕ
takes_over k s (reply_call c msg sent_at received_at) =
    if key c == k && (record_external_reply s c msg sent_at received_at).2 then 1 else 0
takes_over k s _ = 0

-- The takeovers in a run of calls.
unfoldable pub takeovers : String → Store → List Call → ℕ
takeovers k s [] = 0
takeovers k s (c ∷ cs) = takes_over k s c + takeovers k (apply s c) cs

-- The store has a conversation of this revision at the key.
abbrev pub HasRevision : Store → String → ℕ → Type 0
HasRevision s k n = (c : Conversation) × (at_key s k ≡ some c) × (c.external_reply_revision ≡ n)

module _ (k : String) (n : ℕ) (small : n < 2 ^ 64) where
  open-HasRevision :
      (s : Store) (c : Conversation) → HasRevision s k n → HasRevision (find_or_open s c).0 k n
  unfolding find_or_open
  open-HasRevision s c (d, h, e) =
      (d, ground (arith, eq_iff (key c) k, lookup-insert (key c) k c s.conversations), e)

  save-HasRevision :
      (s : Store) (c : Conversation) → HasRevision s k n → HasRevision (save s c).0 k n
  unfolding save
  save-HasRevision s c (d, h, e) = elim (Bool-cases (is_stale (lookup (key c) s.conversations) c)) [
    | inl stale ↦ rw stale (d, h, e)
    | inr fresh ↦ elim (str_cases (key c) k) [
      | inl same ↦ rw fresh (
        c,
        ground (arith, lookup-insert (key c) k c s.conversations, eq_iff (key c) k),
        ground arith,
      )
      | inr ne ↦ rw fresh (d, lookup-insert_ne (key c) k c s.conversations ne ∙ h, e)
    ]
  ]

  target-stored : (s : Store) (c d : Conversation) → at_key s (key c) ≡ some d → target s c ≡ d
  target-stored s c d h = rw (h, target)

  observe-revision :
      (d : Conversation) (sent_at received_at : Time)
      → d.external_reply_revision ≡ n
      → let d' = observe_external_reply d sent_at received_at in
        let flag = not (eqb d'.external_reply_revision d.external_reply_revision) in
        d'.external_reply_revision ≡ (n + (if flag then 1 else 0)) % 2 ^ 64
  unfolding observe_external_reply
  observe-revision d sent_at received_at e = ground arith

  reply-HasRevision :
      (s : Store) (c : Conversation) (msg : Message) (sent_at received_at : Time)
      → IsKeyed s
      → HasRevision s k n
      → HasRevision
          (record_external_reply s c msg sent_at received_at).0
          k
          ((n + takes_over k s (reply_call c msg sent_at received_at)) % 2 ^ 64)
  unfolding record_external_reply
  reply-HasRevision s c msg sent_at received_at keyed (d, h, e) =
      let conv' = observe_external_reply (target s c) sent_at received_at in
      let own : key conv' ≡ key c =
        observe-key (target s c) sent_at received_at ∙ target-key s c keyed in
      elim (Bool-cases (is_replay (get_list (lookup (target s c).id s.messages)) msg)) [
        | inl replay ↦ rw replay (d, h, ground arith)
        | inr new ↦ elim (str_cases (key c) k) [
          | inl same ↦ rw new (
            conv',
            ground (arith, lookup-insert (key conv') k conv' s.conversations, eq_iff (key conv') k),
            rw ((eq_iff (key c) k).1 same) (
                observe-revision (target s c) sent_at received_at (
                  ap (λ (x : Conversation). x.external_reply_revision)
                    (target-stored s c d (ap (at_key s) same ∙ h))
                  ∙ e)),
          )
          | inr ne ↦ rw new (
            d,
            ground (arith, lookup-insert (key conv') k conv' s.conversations, eq_iff (key conv') k),
            ground (arith, eq_iff (key c) k),
          )
        ]
      ]

apply-HasRevision :
    (k : String) (n : ℕ) (s : Store) (c : Call)
    → n < 2 ^ 64
    → IsKeyed s
    → HasRevision s k n
    → HasRevision (apply s c) k ((n + takes_over k s c) % 2 ^ 64)
unfolding apply
apply-HasRevision k n s (open_call c) b keyed h =
    let e : (n + 0) % 2 ^ 64 ≡ n = omega arith in rw e (open-HasRevision k n b s c h)
apply-HasRevision k n s (save_call c) b keyed h =
    let e : (n + 0) % 2 ^ 64 ≡ n = omega arith in rw e (save-HasRevision k n b s c h)
apply-HasRevision k n s (reply_call c msg sent_at received_at) b keyed h =
    reply-HasRevision k n b s c msg sent_at received_at keyed h

-- The revision of a stored conversation after any calls is the one before plus the takeovers among
-- them, as a 64-bit counter: the conversation is never lost, and no other call moves it. The store
-- keeps each conversation under the key of its own thread.
pub run-HasRevision :
    (k : String) (n : ℕ) (s : Store) (cs : List Call)
    → n < 2 ^ 64
    → IsKeyed s
    → HasRevision s k n
    → HasRevision (run s cs) k ((n + takeovers k s cs) % 2 ^ 64)
unfolding run takeovers
run-HasRevision k n s [] b keyed h = let e : (n + 0) % 2 ^ 64 ≡ n = omega arith in rw e h
run-HasRevision k n s (c ∷ cs) b keyed h =
    let m = (n + takes_over k s c) % 2 ^ 64 in
    let rest = takeovers k (apply s c) cs in
    let e : (m + rest) % 2 ^ 64 ≡ (n + (takes_over k s c + rest)) % 2 ^ 64 = omega arith in
    rw (← e) (
      run-HasRevision k m (apply s c) cs (omega arith) (apply-IsKeyed s c keyed)
        (apply-HasRevision k n s c b keyed h))

save_current :
    (t : Store) (d : Conversation)
    → HasRevision t (key d) d.external_reply_revision
    → (save t d).1 ≡ none
unfolding save
save_current t d (c, h, e) = ground arith

save_stale :
    (t : Store) (d : Conversation) (n : ℕ)
    → HasRevision t (key d) n
    → n ≢ d.external_reply_revision
    → save t d ≡ (t, some external_reply_conflict)
unfolding save
save_stale t d n (c, h, e) ne = ground arith

-- A copy of a stored conversation, changed by an assistant turn in all but its thread and its
-- revision, is saved after any calls, with less than 2 ^ 64 takeovers among them, if no colleague
-- took the conversation over; otherwise the save is refused as a conflict and changes nothing. The
-- store keeps each conversation under the key of its own thread.
pub save-takeovers :
    (s : Store) (cs : List Call) (d : Conversation)
    → IsKeyed s
    → d.external_reply_revision < 2 ^ 64
    → HasRevision s (key d) d.external_reply_revision
    → takeovers (key d) s cs < 2 ^ 64
    → (takeovers (key d) s cs ≡ 0) × ((save (run s cs) d).1 ≡ none)
      ⊎ (0 < takeovers (key d) s cs)
        × (save (run s cs) d ≡ (run s cs, some external_reply_conflict))
save-takeovers s cs d keyed b h few =
    let r = d.external_reply_revision in
    let n = takeovers (key d) s cs in
    let after = run-HasRevision (key d) r s cs b keyed h in
    elim (Bool-cases (ltb 0 n)) [
      | inl some_taken ↦
          let p : 0 < n = ltb→lt 0 n some_taken in
          inr (p, save_stale (run s cs) d ((r + n) % 2 ^ 64) after (omega arith))
      | inr untaken ↦
          let z : n ≡ 0 = ground arith in
          let e : (r + n) % 2 ^ 64 ≡ r = omega arith in
          inl (z, save_current (run s cs) d (rw e at after))
    ]
