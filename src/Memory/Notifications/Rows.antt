-- ===== src/Memory/Notifications/Rows.antt =====
-- What a transaction on the notification entries
-- (internal/adapters/persistence/memory/notifications.go) does to each row.
use omnichannel_booking_assi.Prelude.{
  String, Bool, true, false, ◌||◌, List, [], ◌∷◌, ◌==◌, ◌≡◌, ◌≢◌, refl, ap, ◌∙◌, ◌⊎◌, inl, inr,
  Bool-cases, eq_iff, eq_refl, arith, if◌then◌else◌,
}
use omnichannel_booking_assi.Prelude.Dict.{insert, lookup-insert}
use omnichannel_booking_assi.Domain.Errors.{Error, Result, ok, err}
use omnichannel_booking_assi.Domain.Rules.{Result-cases}
use omnichannel_booking_assi.Memory.Notifications.{
  Rows, get_notification, read_rows, write_rows, transact_notifications,
}
use omnichannel_booking_assi.Notifications.Entry.{Entry}

pub get-insert :
    (name d : String) (e : Entry) (rows : Rows)
    → get_notification d (insert name e rows) ≡ (if name == d then e else get_notification d rows)
unfolding get_notification
get-insert name d e rows = elim (Bool-cases (name == d)) [
  | inl p ↦ rw (lookup-insert name d e rows, get_notification, p) refl
  | inr p ↦ rw (lookup-insert name d e rows, get_notification, p) refl
]

pub get-insert_self :
    (name : String) (e : Entry) (rows : Rows) → get_notification name (insert name e rows) ≡ e
get-insert_self name e rows = rw (get-insert name name e rows) (rw (eq_refl name) refl)

pub get-insert_ne :
    (name d : String) (e : Entry) (rows : Rows)
    → name ≢ d
    → get_notification d (insert name e rows) ≡ get_notification d rows
get-insert_ne name d e rows h = elim (Bool-cases (name == d)) [
  | inl p ↦ absurd (h ((eq_iff name d).0 p))
  | inr p ↦ rw (get-insert name d e rows) (rw p refl)
]

abbrev pub has : String → List String → Bool
has d [] = false
has d (name ∷ names) = name == d || has d names

pub get-read :
    (d : String) (names : List String) (rows : Rows)
    → has d names ≡ true
    → get_notification d (read_rows names rows) ≡ get_notification d rows
unfolding read_rows
get-read d [] rows h = cc
get-read d (name ∷ names) rows h = elim (Bool-cases (name == d)) [
  | inl p ↦
      rw (get-insert name d (get_notification name rows) (read_rows names rows))
        (rw p (ap (λ n. get_notification n rows) ((eq_iff name d).0 p)))
  | inr p ↦
      rw (get-insert name d (get_notification name rows) (read_rows names rows))
        (rw p (get-read d names rows (ground (arith, p, h))))
]

pub get-write :
    (d : String) (names : List String) (rows entries : Rows)
    → get_notification d (write_rows names rows entries)
      ≡ (if has d names then get_notification d rows else get_notification d entries)
unfolding write_rows
get-write d [] rows entries = refl
get-write d (name ∷ names) rows entries =
    let entry = get_notification name rows in
    elim (Bool-cases (name == d)) [
      | inl p ↦ rw (get-write d names rows (insert name entry entries)) (
          rw (get-insert name d entry entries) (
            rw p (elim (Bool-cases (has d names)) [
              | inl q ↦ rw q refl
              | inr q ↦ rw q (ap (λ n. get_notification n rows) ((eq_iff name d).0 p))
            ])))
      | inr p ↦
          rw (get-write d names rows (insert name entry entries))
            (rw (get-insert name d entry entries) (rw p refl))
    ]

-- A property that the function of a transaction gives the rows that it returns.
abbrev pub Ends {ℓ} : {A : Type 0} → (A → Rows → Type ℓ) → Result (A × Rows) → Type ℓ
Ends P (err e) = Unit
Ends P (ok (a, rows)) = P a rows

-- The attempts of a row stay as they are.
abbrev pub Keeps : String → Rows → Rows → Type 0
Keeps d rows rows' = (get_notification d rows').attempted ≡ (get_notification d rows).attempted

-- The rows after a transaction and its answer, by what its function returns.
abbrev pub committed : {A : Type 0} → List String → Rows → Result (A × Rows) → Rows × Result A
committed names entries (err e) = (entries, err e)
committed names entries (ok (a, rows)) = (write_rows names rows entries, ok a)

pub transact-committed :
    {A : Type 0} (names : List String) (change : Rows → Result (A × Rows)) (entries : Rows)
    → transact_notifications names change entries
      ≡ committed names entries (change (read_rows names entries))
unfolding transact_notifications
transact-committed {A} names change entries =
    elim (change (read_rows names entries))
      as (λ r.
        (elim r as (λ _. Rows × Result A) [
          | err e ↦ (entries, err e)
          | ok (a, rows) ↦ (write_rows names rows entries, ok a)
        ])
        ≡ committed names entries r) [ err e ↦ refl | ok (a, rows) ↦ refl ]

-- A transaction on one row that writes it.
pub write-insert :
    (name : String) (e : Entry) (rows entries : Rows)
    → write_rows (name ∷ []) (insert name e rows) entries ≡ insert name e entries
unfolding write_rows
write-insert name e rows entries = rw (get-insert_self name e rows) refl

pub get-read_self :
    (name : String) (rows : Rows)
    → get_notification name (read_rows (name ∷ []) rows) ≡ get_notification name rows
get-read_self name rows = get-read name (name ∷ []) rows (rw (eq_refl name) refl)

write-Keeps :
    (d : String) (names : List String) (rows entries : Rows)
    → Keeps d (read_rows names entries) rows
    → Keeps d entries (write_rows names rows entries)
write-Keeps d names rows entries h = elim (Bool-cases (has d names)) [
  | inl p ↦
      rw (get-write d names rows entries)
        (rw p (h ∙ ap (λ e. e.attempted) (get-read d names entries p)))
  | inr p ↦ rw (get-write d names rows entries) (rw p refl)
]

pub committed-Keeps :
    {A : Type 0} (d : String) (names : List String) (entries : Rows) (r : Result (A × Rows))
    → Ends (λ _ rows'. Keeps d (read_rows names entries) rows') r
    → Keeps d entries (committed names entries r).0
committed-Keeps d names entries (err e) h = refl
committed-Keeps d names entries (ok (a, rows)) h = write-Keeps d names rows entries h

-- What the function keeps of a row, the transaction does.
pub transact-Keeps :
    {A : Type 0} (d : String) (names : List String) (change : Rows → Result (A × Rows))
    (rows : Rows)
    → Ends (λ _ rows'. Keeps d (read_rows names rows) rows') (change (read_rows names rows))
    → Keeps d rows (transact_notifications names change rows).0
transact-Keeps d names change rows h =
    rw (transact-committed names change rows)
      (committed-Keeps d names rows (change (read_rows names rows)) h)

-- To write a row with the attempts that it has keeps the attempts of all.
pub insert-Keeps :
    (d name : String) (e : Entry) (rows : Rows)
    → e.attempted ≡ (get_notification name rows).attempted
    → Keeps d rows (insert name e rows)
insert-Keeps d name e rows h = elim (Bool-cases (name == d)) [
  | inl p ↦
      rw (get-insert name d e rows)
        (rw p (h ∙ ap (λ n. (get_notification n rows).attempted) ((eq_iff name d).0 p)))
  | inr p ↦ rw (get-insert name d e rows) (rw p refl)
]

pub insert-Keeps_ne :
    (d name : String) (e : Entry) (rows : Rows) → name ≢ d → Keeps d rows (insert name e rows)
insert-Keeps_ne d name e rows h = ap (λ e. e.attempted) (get-insert_ne name d e rows h)

-- A transaction whose function returns an error changes nothing and returns the error. Otherwise it
-- returns what the function assigned, each row that it names is the one that the function left, and
-- all other rows are as they were.
pub transact_notifications_lem :
    {A : Type 0} (names : List String) (change : Rows → Result (A × Rows)) (entries : Rows)
    → ((e : Error) × (change (read_rows names entries) ≡ err e)
        × (transact_notifications names change entries ≡ (entries, err e)))
      ⊎ ((a : A) × (rows : Rows) × (change (read_rows names entries) ≡ ok (a, rows))
          × ((transact_notifications names change entries).1 ≡ ok a)
          × ((d : String)
              → get_notification d (transact_notifications names change entries).0
                ≡ (if has d names then get_notification d rows else get_notification d entries)))
transact_notifications_lem names change entries =
    let same = transact-committed names change entries in
    elim (Result-cases (change (read_rows names entries))) [
      | inl (e, p) ↦ inl (e, p, same ∙ ap (committed names entries) p)
      | inr ((a, rows), p) ↦
          let stored = same ∙ ap (committed names entries) p in
          inr (
            a,
            rows,
            p,
            ap (λ z. z.1) stored,
            λ d. ap (λ z. get_notification d z.0) stored ∙ get-write d names rows entries,
          )
    ]

-- A row that the transaction names, once its function has succeeded.
pub transact-get :
    {A : Type 0} (d : String) (names : List String) (change : Rows → Result (A × Rows))
    (entries : Rows) (a : A) (rows : Rows)
    → has d names ≡ true
    → change (read_rows names entries) ≡ ok (a, rows)
    → get_notification d (transact_notifications names change entries).0 ≡ get_notification d rows
transact-get d names change entries a rows named p =
    ap (λ z. get_notification d z.0)
      (transact-committed names change entries ∙ ap (committed names entries) p)
    ∙ get-write d names rows entries
    ∙ ap (λ b. if b then get_notification d rows else get_notification d entries) named
