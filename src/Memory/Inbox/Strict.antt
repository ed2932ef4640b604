-- ===== src/Memory/Inbox/Strict.antt =====
-- The list of conversations in the staff inbox is in strict order.
use omnichannel_booking_assi.Prelude.{
  ◌≡◌, ◌≢◌, refl, sym, inl, inr, Bool, true, false, List, [], ◌∷◌, All, arith, filter, Bool-cases,
}
use omnichannel_booking_assi.Domain.Conversation.{Conversation, key}
use omnichannel_booking_assi.Memory.Inbox.{cursor_of, comes_before, insert_newest, newest_first}
use omnichannel_booking_assi.Memory.Inbox.Order.{
  text_less_total, comes_before_trans, comes_before_asym,
}

abbrev pub before : Conversation → Conversation → Bool
before c d = comes_before (cursor_of c) (cursor_of d)

abbrev pub AllAfter : Conversation → List Conversation → Type 0
AllAfter c xs = All (λ x. before c x ≡ true) xs

-- Each one stands before all that follow.
abbrev pub IsStrict : List Conversation → Type 0
IsStrict [] = Unit
IsStrict (x ∷ xs) = AllAfter x xs × IsStrict xs

abbrev IsNew : Conversation → List Conversation → Type 0
IsNew c xs = All (λ x. key c ≢ key x) xs

-- No two conversations have one key.
abbrev pub HaveDistinctKeys : List Conversation → Type 0
HaveDistinctKeys [] = Unit
HaveDistinctKeys (c ∷ cs) = IsNew c cs × HaveDistinctKeys cs

All-map {ℓ κ ι} :
    {A : Type ℓ} (P : A → Type κ) (Q : A → Type ι) (xs : List A)
    → ((x : A) → P x → Q x)
    → All P xs
    → All Q xs
All-map P Q [] f h = tt
All-map P Q (x ∷ xs) f h = (f x h.0, All-map P Q xs f h.1)

pub filter-All {ℓ κ} :
    {A : Type ℓ} (P : A → Type κ) (p : A → Bool) (xs : List A) → All P xs → All P (filter p xs)
filter-All P p [] h = tt
filter-All P p (x ∷ xs) h = elim (Bool-cases (p x)) [
  | inl e ↦ rw e (h.0, filter-All P p xs h.1)
  | inr e ↦ rw e (filter-All P p xs h.1)
]

pub filter-passes {ℓ} :
    {A : Type ℓ} (p : A → Bool) (xs : List A) → All (λ x. p x ≡ true) (filter p xs)
filter-passes p [] = tt
filter-passes p (x ∷ xs) = elim (Bool-cases (p x)) [
  | inl e ↦ rw e (e, filter-passes p xs)
  | inr e ↦ rw e (filter-passes p xs)
]

before_total : (x y : Conversation) → key x ≢ key y → before x y ≡ false → before y x ≡ true
unfolding comes_before
before_total x y ne h = ground (arith, text_less_total (key y) (key x) (λ e. ne (sym e)))

pub before_irrefl : (x : Conversation) → before x x ≡ false
before_irrefl x = elim (Bool-cases (before x x)) [
  | inr e ↦ e
  | inl e ↦ comes_before_asym (cursor_of x) (cursor_of x) e
]

pub insert-All :
    (P : Conversation → Type 0) (c : Conversation) (xs : List Conversation)
    → P c
    → All P xs
    → All P (insert_newest c xs)
unfolding insert_newest
insert-All P c [] h k = (h, tt)
insert-All P c (x ∷ xs) h k = elim (Bool-cases (before x c)) [
  | inl e ↦ rw e (k.0, insert-All P c xs h k.1)
  | inr e ↦ rw e (h, k)
]

pub sort-All :
    (P : Conversation → Type 0) (cs : List Conversation) → All P cs → All P (newest_first cs)
unfolding newest_first
sort-All P [] h = tt
sort-All P (c ∷ cs) h = insert-All P c (newest_first cs) h.0 (sort-All P cs h.1)

insert-IsStrict :
    (c : Conversation) (xs : List Conversation)
    → IsNew c xs
    → IsStrict xs
    → IsStrict (insert_newest c xs)
unfolding insert_newest
insert-IsStrict c [] ne h = (tt, tt)
insert-IsStrict c (x ∷ xs) ne h = elim (Bool-cases (before x c)) [
  | inl e ↦ rw e (insert-All (λ y. before x y ≡ true) c xs e h.0, insert-IsStrict c xs ne.1 h.1)
  | inr e ↦
      let first = before_total x c (λ q. ne.0 (sym q)) e in
      rw e (
        (
          first,
          All-map (λ y. before x y ≡ true) (λ y. before c y ≡ true) xs
              (λ y. comes_before_trans (cursor_of c) (cursor_of x) (cursor_of y) first) h.0,
        ),
        h,
      )
]

pub sort-IsStrict : (cs : List Conversation) → HaveDistinctKeys cs → IsStrict (newest_first cs)
unfolding newest_first
sort-IsStrict [] h = tt
sort-IsStrict (c ∷ cs) h =
    insert-IsStrict c (newest_first cs) (sort-All (λ x. key c ≢ key x) cs h.0)
      (sort-IsStrict cs h.1)

pub insert_head :
    (c : Conversation) (xs : List Conversation)
    → All (λ x. before x c ≡ false) xs
    → insert_newest c xs ≡ c ∷ xs
unfolding insert_newest
insert_head c [] h = refl
insert_head c (x ∷ xs) h = rw h.0

-- If the first of a strict list does not stand before `c`, the others do not.
pub after_head :
    (c x : Conversation) (xs : List Conversation)
    → before x c ≡ false
    → AllAfter x xs
    → All (λ y. before y c ≡ false) xs
after_head c x xs e h =
    All-map (λ y. before x y ≡ true) (λ y. before y c ≡ false) xs
      (λ y k. elim (Bool-cases (before y c)) [
        | inr f ↦ f
        | inl f ↦
            absurd
              (ground (arith, comes_before_trans (cursor_of x) (cursor_of y) (cursor_of c) k f))
      ])
      h
