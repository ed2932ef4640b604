-- ===== src/Domain/Outgoing/Menu.antt =====
-- What `WithChoices` offers to the customer.
use omnichannel_booking_assi.Prelude.{
  suc, ◌≤◌, ◌<◌, ◌≡◌, ◌≢◌, refl, sym, subst, ap, ◌⊎◌, inl, inr, String, true, false, ◌||◌, List, [],
  ◌∷◌, ◌++◌, map, length, length-append, All, All-append, arith, eq_iff, eq_refl, ◌==◌, is_empty,
  is_empty→ne, eqb, Bool-cases,
}
use omnichannel_booking_assi.Prelude.Spaces.{trim_space, trim_space_idem}
use omnichannel_booking_assi.Domain.Messaging.{Choice, Outgoing}
use omnichannel_booking_assi.Domain.Outgoing.{seen_in, keep_choices, with_choices, max_choices}

abbrev pub labels : List Choice → List String
labels = map (λ c. c.label)

-- No text stands twice.
abbrev pub IsDistinct : List String → Type 0
IsDistinct [] = Unit
IsDistinct (s ∷ ss) = (seen_in s ss ≡ false) × IsDistinct ss

-- A label that is trimmed and says something.
abbrev pub IsClean : Choice → Type 0
IsClean c = (trim_space c.label ≡ c.label) × (c.label ≢ "")

pub record IsMenu (cs : List Choice) : Type 0 where
  pub clean : All IsClean cs
  pub distinct : IsDistinct (labels cs)
  pub bounded : length cs ≤ max_choices

seen_in-append :
    (s : String) (xs ys : List String) → seen_in s (xs ++ ys) ≡ (seen_in s xs || seen_in s ys)
unfolding seen_in
seen_in-append s [] ys = refl
seen_in-append s (x ∷ xs) ys = ground (arith, seen_in-append s xs ys)

IsDistinct-append :
    (xs : List String) (s : String)
    → IsDistinct xs
    → seen_in s xs ≡ false
    → IsDistinct (xs ++ s ∷ [])
unfolding seen_in
IsDistinct-append [] s d n = (refl, tt)
IsDistinct-append (x ∷ xs) s d n = (
  ground (arith, seen_in-append x xs (s ∷ []), eq_iff x s, eq_iff s x),
  IsDistinct-append xs s d.1 (ground arith),
)

labels-append : (xs ys : List Choice) → labels (xs ++ ys) ≡ labels xs ++ labels ys
labels-append [] ys = refl
labels-append (x ∷ xs) ys = ap (◌∷◌ x.label) (labels-append xs ys)

-- The loop's variables: what was kept is a menu that is not full, and the map knows its labels.
record IsOpen (seen : List String) (kept : List Choice) : Type 0 where
  menu : IsMenu kept
  room : length kept < max_choices
  known : (s : String) → seen_in s seen ≡ seen_in s (labels kept)

-- What the loop keeps when it meets a new label.
abbrev extended : List Choice → String → List Choice
extended kept label = kept ++ record { label = label } ∷ []

seen_in-extended :
    (s : String) (kept : List Choice) (label : String)
    → seen_in s (labels (extended kept label)) ≡ (label == s || seen_in s (labels kept))
unfolding seen_in
seen_in-extended s kept label = ground (
  arith,
  labels-append kept (record { label = label } ∷ []),
  seen_in-append s (labels kept) (label ∷ []),
)

empty_IsOpen : IsOpen [] []
unfolding seen_in
empty_IsOpen = record {
  menu = record { clean = tt; distinct = tt; bounded = omega arith };
  room = omega arith;
  known = λ s. refl;
}

module _ (text : String) (seen : List String) (kept : List Choice) (h : IsOpen seen kept) where
  length-extended : length (extended kept (trim_space text)) ≡ suc (length kept)
  length-extended = omega (arith, length-append kept (record { label = trim_space text } ∷ []))

  extended-IsMenu :
      is_empty (trim_space text) ≡ false
      → seen_in (trim_space text) seen ≡ false
      → IsMenu (extended kept (trim_space text))
  extended-IsMenu e n = record {
    clean =
        All-append IsClean kept (record { label = trim_space text } ∷ []) h.menu.clean
          ((trim_space_idem text, is_empty→ne (trim_space text) e), tt);
    distinct = rw labels-append (
        IsDistinct-append (labels kept) (trim_space text) h.menu.distinct
          (ground (arith, h.known (trim_space text))));
    bounded = omega (arith, h.room, length-extended);
  }

  extended-IsOpen :
      is_empty (trim_space text) ≡ false
      → seen_in (trim_space text) seen ≡ false
      → eqb (length (extended kept (trim_space text))) max_choices ≡ false
      → IsOpen (trim_space text ∷ seen) (extended kept (trim_space text))
  unfolding seen_in
  extended-IsOpen e n b = record {
    menu = extended-IsMenu e n;
    room = ground (arith, h.room, length-extended);
    known = λ s. ground (arith, h.known s, seen_in-extended s kept (trim_space text));
  }

keep_choices-IsMenu :
    (cs : List Choice) (seen : List String) (kept : List Choice)
    → IsOpen seen kept
    → IsMenu (keep_choices cs seen kept)
unfolding keep_choices
keep_choices-IsMenu [] seen kept h = h.menu
keep_choices-IsMenu (c ∷ cs) seen kept h =
    elim (Bool-cases (is_empty (trim_space c.label) || seen_in (trim_space c.label) seen)) [
      | inl skip ↦ rw skip (keep_choices-IsMenu cs seen kept h)
      | inr take ↦
          elim (Bool-cases (eqb (length (extended kept (trim_space c.label))) max_choices)) [
            | inl full ↦
                rw (take, full) (extended-IsMenu c.label seen kept h (ground arith) (ground arith))
            | inr more ↦
                rw (take, more)
                  (keep_choices-IsMenu cs (trim_space c.label ∷ seen)
                    (extended kept (trim_space c.label))
                    (extended-IsOpen c.label seen kept h (ground arith) (ground arith) more))
          ]
    ]

-- Whatever choices a workflow proposes, the message offers a menu: each label trimmed and not
-- empty, no label twice, and 100 at most.
pub with_choices-IsMenu : (o : Outgoing) (cs : List Choice) → IsMenu (with_choices o cs).choices
unfolding with_choices seen_in
with_choices-IsMenu o cs = keep_choices-IsMenu cs [] [] empty_IsOpen

-- What was kept stays.
seen_in-keep_choices :
    (s : String) (cs : List Choice) (seen : List String) (kept : List Choice)
    → seen_in s (labels kept) ≡ true
    → seen_in s (labels (keep_choices cs seen kept)) ≡ true
unfolding keep_choices
seen_in-keep_choices s [] seen kept h = h
seen_in-keep_choices s (c ∷ cs) seen kept h =
    let label = trim_space c.label in
    ground (
      arith,
      seen_in-extended s kept label,
      seen_in-keep_choices s cs seen kept,
      seen_in-keep_choices s cs (label ∷ seen) (extended kept label),
    )

-- A choice is offered, unless its label is blank or the menu is full.
abbrev pub IsOffered : List Choice → Choice → Type 0
IsOffered menu c =
    (is_empty (trim_space c.label) ≡ true)
    ⊎ (seen_in (trim_space c.label) (labels menu) ≡ true)
    ⊎ (length menu ≡ max_choices)

All-IsOffered_of_full :
    (menu cs : List Choice) → length menu ≡ max_choices → All (IsOffered menu) cs
All-IsOffered_of_full menu [] h = tt
All-IsOffered_of_full menu (c ∷ cs) h = (inr (inr h), All-IsOffered_of_full menu cs h)

-- One round of the loop.
keep_choices_step :
    (c : Choice) (cs : List Choice) (seen : List String) (kept : List Choice)
    → let label = trim_space c.label in
      let wider = extended kept label in
      (is_empty label || seen_in label seen ≡ true
        → keep_choices (c ∷ cs) seen kept ≡ keep_choices cs seen kept)
      × (is_empty label || seen_in label seen ≡ false
          → eqb (length wider) max_choices ≡ true
          → keep_choices (c ∷ cs) seen kept ≡ wider)
      × (is_empty label || seen_in label seen ≡ false
          → eqb (length wider) max_choices ≡ false
          → keep_choices (c ∷ cs) seen kept ≡ keep_choices cs (label ∷ seen) wider)
unfolding keep_choices
keep_choices_step c cs seen kept = (λ h. rw h, λ h b. rw (h, b), λ h b. rw (h, b))

keep_choices-IsOffered :
    (cs : List Choice) (seen : List String) (kept : List Choice)
    → IsOpen seen kept
    → All (IsOffered (keep_choices cs seen kept)) cs
keep_choices-IsOffered [] seen kept h = tt
keep_choices-IsOffered (c ∷ cs) seen kept h =
    let label = trim_space c.label in
    let wider = extended kept label in
    let (skips, fills, takes) = keep_choices_step c cs seen kept in
    let offered = λ (menu : List Choice). All (IsOffered menu) (c ∷ cs) in
    elim (Bool-cases (is_empty label || seen_in label seen)) [
      | inl skip ↦ subst offered (sym (skips skip)) (
        ground (arith, h.known label, seen_in-keep_choices label cs seen kept),
        keep_choices-IsOffered cs seen kept h,
      )
      | inr take ↦ elim (Bool-cases (eqb (length wider) max_choices)) [
        | inl full ↦
            subst offered (sym (fills take full))
              (All-IsOffered_of_full wider (c ∷ cs) (ground arith))
        | inr more ↦ subst offered (sym (takes take more)) (
          inr (
              inl (
                seen_in-keep_choices label cs (label ∷ seen) wider
                  (ground (arith, seen_in-extended label kept label, eq_refl label)))),
          keep_choices-IsOffered cs (label ∷ seen) wider
              (extended-IsOpen c.label seen kept h (ground arith) (ground arith) more),
        )
      ]
    ]

-- Every choice that a workflow proposes is offered, under its trimmed label, unless that is empty
-- or the menu holds 100.
pub with_choices-IsOffered :
    (o : Outgoing) (cs : List Choice) → All (IsOffered (with_choices o cs).choices) cs
unfolding with_choices seen_in
with_choices-IsOffered o cs = keep_choices-IsOffered cs [] [] empty_IsOpen
