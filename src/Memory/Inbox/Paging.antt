-- ===== src/Memory/Inbox/Paging.antt =====
-- The pages of the staff inbox, taken one after another by their cursors, are the whole list.
use omnichannel_booking_assi.Prelude.{
  ℕ, zero, suc, ◌<◌, ◌≡◌, ◌≢◌, refl, ap, subst, ◌∙◌, ◌⊎◌, inl, inr, Bool, true, false, ◌&&◌, ◌==◌,
  Option, none, some, List, [], ◌∷◌, ◌++◌, All, arith, filter, length, take, drop, take-append-drop,
  ltb, if◌then◌else◌, Bool-cases, ltb→lt,
}
use omnichannel_booking_assi.Prelude.Int.{ℤ}
use omnichannel_booking_assi.Prelude.Dict.{values}
use omnichannel_booking_assi.Domain.Messaging.{telegram}
use omnichannel_booking_assi.Domain.Conversation.{Conversation, key}
use omnichannel_booking_assi.Memory.Store.{Store}
use omnichannel_booking_assi.Memory.Pages.{Cursor, conversation_limit}
use omnichannel_booking_assi.Memory.Inbox.{
  inbox_limit, cursor_of, comes_before, is_listed, insert_newest, newest_first, last_of, page_of,
  telegram_conversations,
}
use omnichannel_booking_assi.Memory.Inbox.Order.{comes_before_trans, comes_before_asym}
use omnichannel_booking_assi.Memory.Inbox.Strict.{
  before, AllAfter, IsStrict, HaveDistinctKeys, filter-All, filter-passes, before_irrefl, sort-All,
  sort-IsStrict, insert_head, after_head,
}

filter-insert :
    (p : Conversation → Bool) (c : Conversation) (xs : List Conversation)
    → IsStrict xs
    → filter p (insert_newest c xs) ≡ (if p c then insert_newest c (filter p xs) else filter p xs)
unfolding insert_newest
filter-insert p c [] h = refl
filter-insert p c (x ∷ xs) h = elim (Bool-cases (before x c)) [
  | inl e ↦ rw e (ground (arith, filter-insert p c xs h.1))
  | inr e ↦
      let rest = filter-All (λ y. before y c ≡ false) p xs (after_head c x xs e h.0) in
      rw e (ground (arith, insert_head c (filter p xs) rest))
]

newest_first-filter :
    (p : Conversation → Bool) (cs : List Conversation)
    → HaveDistinctKeys cs
    → newest_first (filter p cs) ≡ filter p (newest_first cs)
unfolding newest_first
newest_first-filter p [] h = refl
newest_first-filter p (c ∷ cs) h =
    let rest = newest_first-filter p cs h.1 in
    let step = filter-insert p c (newest_first cs) (sort-IsStrict cs h.1) in
    ground (arith, rest, step)

-- A conversation that passes the cursor is one after it.
is_listed_eq :
    (d : Cursor) (x : Conversation)
    → is_listed (some d) x ≡ (x.provider == telegram && comes_before d (cursor_of x))
unfolding is_listed comes_before
is_listed_eq d x = ground arith

is_listed_next :
    (b : Option Cursor) (c x : Conversation)
    → is_listed b c ≡ true
    → is_listed (some (cursor_of c)) x ≡ (is_listed b x && before c x)
unfolding is_listed
is_listed_next none c x h = is_listed_eq (cursor_of c) x
is_listed_next (some d) c x h = ground (
  arith,
  is_listed_eq (cursor_of c) x,
  is_listed_eq d x,
  is_listed_eq d c,
  comes_before_trans d (cursor_of c) (cursor_of x),
)

filter-next :
    (b : Option Cursor) (c : Conversation) (xs : List Conversation)
    → is_listed b c ≡ true
    → filter (is_listed (some (cursor_of c))) xs ≡ filter (before c) (filter (is_listed b) xs)
filter-next b c [] h = refl
filter-next b c (x ∷ xs) h = ground (arith, filter-next b c xs h, is_listed_next b c x h)

last-All :
    (P : Conversation → Type 0) (n : ℕ) (xs : List Conversation) (c : Conversation)
    → last_of (take n xs) ≡ some c
    → All P xs
    → P c
last-All P zero xs c h k = cc
last-All P (suc n) [] c h k = cc
last-All P (suc zero) (x ∷ xs) c h k = let e : x ≡ c = ground arith in rw (← e) k.0
last-All P (suc (suc n)) (x ∷ []) c h k = let e : x ≡ c = ground arith in rw (← e) k.0
last-All P (suc (suc n)) (x ∷ y ∷ xs) c h k = last-All P (suc n) (y ∷ xs) c h k.1

filter_all : (c : Conversation) (xs : List Conversation) → AllAfter c xs → filter (before c) xs ≡ xs
filter_all c [] h = refl
filter_all c (x ∷ xs) h = rw (h.0, filter_all c xs h.1)

-- What stands after the last of the first `n` is the rest.
filter-drop :
    (n : ℕ) (xs : List Conversation) (c : Conversation)
    → IsStrict xs
    → last_of (take n xs) ≡ some c
    → filter (before c) xs ≡ drop n xs
filter-drop zero xs c h e = cc
filter-drop (suc n) [] c h e = cc
filter-drop (suc zero) (x ∷ xs) c h e =
    let same : x ≡ c = ground arith in
    subst (λ z. filter (before z) (x ∷ xs) ≡ xs) same (rw (before_irrefl x) (filter_all x xs h.0))
filter-drop (suc (suc n)) (x ∷ []) c h e =
    let same : x ≡ c = ground arith in
    subst (λ z. filter (before z) (x ∷ []) ≡ []) same (rw (before_irrefl x) refl)
filter-drop (suc (suc n)) (x ∷ y ∷ xs) c h e =
    let later : before x c ≡ true = last-All (λ z. before x z ≡ true) (suc n) (y ∷ xs) c e h.0 in
    rw (comes_before_asym (cursor_of x) (cursor_of c) later) (filter-drop (suc n) (y ∷ xs) c h.1 e)

-- All that the inbox lists from a cursor on.
abbrev pub listing : Store → Option Cursor → List Conversation
listing s b = newest_first (filter (is_listed b) (values s.conversations))

HaveDistinctKeys-filter :
    (p : Conversation → Bool) (cs : List Conversation)
    → HaveDistinctKeys cs
    → HaveDistinctKeys (filter p cs)
HaveDistinctKeys-filter p [] h = tt
HaveDistinctKeys-filter p (c ∷ cs) h = elim (Bool-cases (p c)) [
  | inl e ↦ rw e (filter-All (λ x. key c ≢ key x) p cs h.0, HaveDistinctKeys-filter p cs h.1)
  | inr e ↦ rw e (HaveDistinctKeys-filter p cs h.1)
]

last_some :
    (n : ℕ) (xs : List Conversation)
    → 0 < n
    → n < length xs
    → (c : Conversation) × (last_of (take n xs) ≡ some c)
last_some zero xs h k = absurd (omega arith)
last_some (suc n) [] h k = absurd (omega arith)
last_some (suc zero) (x ∷ xs) h k = (x, refl)
last_some (suc (suc n)) (x ∷ []) h k = absurd (omega arith)
last_some (suc (suc n)) (x ∷ y ∷ xs) h k = last_some (suc n) (y ∷ xs) (omega arith) (omega arith)

inbox_limit_pos : (limit : ℤ) (maximum : ℕ) → 0 < maximum → 0 < inbox_limit limit maximum
unfolding inbox_limit
inbox_limit_pos limit maximum h = ground arith

-- A page of the inbox either has no cursor, and then shows all that the request asked for; or it
-- has one, and what the cursor asks for is exactly the rest, in the same order: nothing is skipped
-- or shown twice. The stored conversations have different keys.
pub telegram_conversations_lem :
    (s : Store) (b : Option Cursor) (limit : ℤ)
    → HaveDistinctKeys (values s.conversations)
    → let page = telegram_conversations s b limit in
      (page.next ≡ none) × (page.items ≡ listing s b)
      ⊎ ((c : Cursor) × (page.next ≡ some c) × (page.items ++ listing s (some c) ≡ listing s b))
unfolding telegram_conversations page_of
telegram_conversations_lem s b limit distinct =
    let n = inbox_limit limit conversation_limit in
    let kept = filter (is_listed b) (values s.conversations) in
    let all = listing s b in
    let kept_distinct = HaveDistinctKeys-filter (is_listed b) (values s.conversations) distinct in
    elim (Bool-cases (ltb n (length all))) [
      | inr whole ↦ inl (ground arith, ground arith)
      | inl cut ↦
          let (c, last) =
            last_some n all (inbox_limit_pos limit conversation_limit (omega arith))
              (ltb→lt n (length all) cut) in
          let listed : is_listed b c ≡ true =
            last-All (λ x. is_listed b x ≡ true) n all c last
              (sort-All (λ x. is_listed b x ≡ true) kept
                (filter-passes (is_listed b) (values s.conversations))) in
          let rest : listing s (some (cursor_of c)) ≡ drop n all =
            ap newest_first (filter-next b c (values s.conversations) listed)
            ∙ newest_first-filter (before c) kept kept_distinct
            ∙ filter-drop n all c (sort-IsStrict kept kept_distinct) last in
          inr (cursor_of c, ground arith, ground (arith, rest, take-append-drop n all))
    ]
