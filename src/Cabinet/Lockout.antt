-- ===== src/Cabinet/Lockout.antt =====
-- internal/application/cabinet/identity.go: the guesses that `Confirm` takes.
use omnichannel_booking_assi.Prelude.{
  ℕ, suc, ◌+◌, ◌≤◌, ◌<◌, String, Bool, true, false, not, ◌&&◌, Option, some, List, [], ◌∷◌, ◌==◌,
  ◌≡◌, ◌≢◌, refl, sym, ap, subst, ◌∙◌, ◌⊎◌, inl, inr, Bool-cases, All, length, leb, arith,
}
use omnichannel_booking_assi.Prelude.Dict.{insert}
use omnichannel_booking_assi.Prelude.Time.{Time, after}
use omnichannel_booking_assi.Domain.Errors.{Error, Result, ok, err}
use omnichannel_booking_assi.Domain.Rules.{if_rule}
use omnichannel_booking_assi.Memory.Notifications.{Rows, get_notification}
use omnichannel_booking_assi.Memory.Notifications.Rows.{get-insert_self, get-insert_ne}
use omnichannel_booking_assi.Notifications.Entry.{Entry, PhoneChallenge}
use omnichannel_booking_assi.Cabinet.{
  confirm_rows, is_in, is_right, tried, with_challenge, expired, limited, max_attempts,
}

abbrev pub challenge_of : String → Rows → PhoneChallenge
challenge_of name rows = (get_notification name rows).verification

not-false : (b : Bool) → b ≡ false → not b ≡ false → ⊥
not-false true h k = cc
not-false false h k = cc

module _ (own_name proof_name user : String) (mac : String → String → String) where
  abbrev Answer : Type 0
  Answer = Result ((String × Option Error) × Rows)

  abbrev rows_after : Rows → Answer → Rows
  rows_after rows (ok (answer, rows')) = rows'
  rows_after rows (err e) = rows

  -- Calls of `Confirm` with these codes, at these times.
  unfoldable pub apply_guesses : List (String × Time) → Rows → Rows
  apply_guesses [] rows = rows
  apply_guesses ((digits, at) ∷ guesses) rows =
      apply_guesses guesses
        (rows_after rows (confirm_rows own_name proof_name user mac digits at rows))

  -- A code that is not the one sent, tried before the time `later`.
  abbrev pub IsWrong : PhoneChallenge → Time → String × Time → Type 0
  IsWrong v later (digits, at) = (is_right v mac digits ≡ false) × (at ≤ later)

  -- At the time `later` the challenge is closed, or this many codes were tried; its code is that of `v`, and
  -- the proof is still `proof`.
  abbrev Used : ℕ → PhoneChallenge → Entry → Time → Rows → Type 0
  Used n v proof later rows =
      ((is_in "code" (challenge_of own_name rows) later ≡ false)
        ⊎ (n ≤ (challenge_of own_name rows).attempts))
      × ((challenge_of own_name rows).hash ≡ v.hash)
      × ((challenge_of own_name rows).phone ≡ v.phone)
      × (get_notification proof_name rows ≡ proof)

  is_right-same :
      (v w : PhoneChallenge) (digits : String)
      → w.hash ≡ v.hash
      → w.phone ≡ v.phone
      → is_right v mac digits ≡ false
      → is_right w mac digits ≡ false
  unfolding is_right
  is_right-same v w digits h p wrong = rw (h, p) wrong

  -- A challenge that is closed at a time is closed at all later times.
  is_in-later :
      (v : PhoneChallenge) (at later : Time)
      → at ≤ later
      → is_in "code" v at ≡ false
      → is_in "code" v later ≡ false
  is_in-later v at later le h = ground (arith, le, h)

  -- A wrong code that is tried.
  tried-Used :
      (n : ℕ) (v : PhoneChallenge) (proof : Entry) (later : Time) (rows : Rows)
      → own_name ≢ proof_name
      → Used n v proof later rows
      → Used (suc n) v proof later (
          insert own_name
            (with_challenge (get_notification own_name rows) (tried (challenge_of own_name rows)))
            rows)
  tried-Used n v proof later rows apart (used, hash, phone, proven) =
      let w = challenge_of own_name rows in
      let e = with_challenge (get_notification own_name rows) (tried w) in
      let stored = get-insert_self own_name e rows in
      (
        elim used [
          | inl closed ↦
              inl (
                ap (λ (x : Entry). is_in "code" x.verification later) stored
                ∙ tried-closed w closed)
          | inr le ↦ inr (
              subst (λ (x : Entry). suc n ≤ x.verification.attempts) (sym stored)
                (omega (arith, le)))
        ],
        ap (λ (x : Entry). x.verification.hash) stored ∙ hash,
        ap (λ (x : Entry). x.verification.phone) stored ∙ phone,
        get-insert_ne own_name proof_name e rows apart ∙ proven,
      )
    where
      tried-closed :
          (w : PhoneChallenge) → is_in "code" w later ≡ false → is_in "code" (tried w) later ≡ false
      tried-closed w closed =
          if_rule (λ (s : String). (s == "code" && after w.expires_at later) ≡ false)
            (leb max_attempts (suc w.attempts)) (λ _. refl) (λ _. closed)

  step-Used :
      (n : ℕ) (v : PhoneChallenge) (proof : Entry) (later : Time) (guess : String × Time)
      (rows : Rows)
      → own_name ≢ proof_name
      → n < 5
      → IsWrong v later guess
      → Used n v proof later rows
      → Used
          (suc n)
          v
          proof
          later
          (rows_after rows (confirm_rows own_name proof_name user mac guess.0 guess.1 rows))
  unfolding confirm_rows
  step-Used n v proof later (digits, at) rows apart small (wrong, le) (used, hash, phone, proven) =
      let w = challenge_of own_name rows in
      let P = λ (r : Answer). Used (suc n) v proof later (rows_after rows r) in
      if_rule P (not (is_in "code" w at))
        (λ closed. (inl (is_in-later w at later le (ground (arith, closed))), hash, phone, proven))
        (λ _.
          if_rule P (leb max_attempts w.attempts)
            (λ full. (inr (ground (arith, full, small)), hash, phone, proven))
            (λ _.
              if_rule P (not (is_right w mac digits))
                (λ _. tried-Used n v proof later rows apart (used, hash, phone, proven))
                (λ right. absurd (
                  not-false (is_right w mac digits) (is_right-same v w digits hash phone wrong)
                    right))))

  Used-weaken :
      (m n : ℕ) (v : PhoneChallenge) (proof : Entry) (later : Time) (rows : Rows)
      → m ≤ n
      → Used n v proof later rows
      → Used m v proof later rows
  Used-weaken m n v proof later rows le (inl closed, a, b, c) = (inl closed, a, b, c)
  Used-weaken m n v proof later rows le (inr many, a, b, c) =
      (inr (omega (arith, le, many)), a, b, c)

  -- Once five codes were tried, five stay tried.
  full-Used :
      (guesses : List (String × Time)) (v : PhoneChallenge) (proof : Entry) (later : Time)
      (rows : Rows)
      → own_name ≢ proof_name
      → All (IsWrong v later) guesses
      → Used 5 v proof later rows
      → Used 5 v proof later (apply_guesses guesses rows)
  unfolding apply_guesses
  full-Used [] v proof later rows apart wrong used = used
  full-Used ((digits, at) ∷ guesses) v proof later rows apart wrong used =
      full-Used guesses v proof later
        (rows_after rows (confirm_rows own_name proof_name user mac digits at rows)) apart wrong.1
        (step-Used 4 v proof later (digits, at) rows apart (omega arith) wrong.0
          (Used-weaken 4 5 v proof later rows (omega arith) used))

  guesses-Used :
      (guesses : List (String × Time)) (n : ℕ) (v : PhoneChallenge) (proof : Entry) (later : Time)
      (rows : Rows)
      → own_name ≢ proof_name
      → 5 ≤ n + length guesses
      → All (IsWrong v later) guesses
      → Used n v proof later rows
      → Used 5 v proof later (apply_guesses guesses rows)
  unfolding apply_guesses
  guesses-Used [] n v proof later rows apart enough wrong used =
      Used-weaken 5 n v proof later rows (omega (arith, enough)) used
  guesses-Used ((digits, at) ∷ guesses) n v proof later rows apart enough wrong used =
      elim (Bool-cases (leb 5 n)) [
        | inl many ↦
            full-Used ((digits, at) ∷ guesses) v proof later rows apart wrong
              (Used-weaken 5 n v proof later rows (ground (arith, many)) used)
        | inr few ↦
            guesses-Used guesses (suc n) v proof later
              (rows_after rows (confirm_rows own_name proof_name user mac digits at rows)) apart
              (omega (arith, enough)) wrong.1
              (step-Used n v proof later (digits, at) rows apart (ground (arith, few)) wrong.0 used)
      ]

  -- What `Confirm` answers then.
  Used-refuses :
      (digits : String) (v : PhoneChallenge) (proof : Entry) (later : Time) (rows : Rows)
      → Used 5 v proof later rows
      → (e : Error) × (confirm_rows own_name proof_name user mac digits later rows
          ≡ ok (("", some e), rows))
  unfolding confirm_rows
  Used-refuses digits v proof later rows (used, _, _, _) =
      let w = challenge_of own_name rows in
      let P = λ (r : Answer). (e : Error) × (r ≡ ok (("", some e), rows)) in
      if_rule P (not (is_in "code" w later)) (λ _. (expired, refl))
        (λ opened.
          if_rule P (leb max_attempts w.attempts) (λ _. (limited, refl))
            (λ few. absurd (elim used [
              | inl closed ↦ not-false (is_in "code" w later) closed opened
              | inr many ↦ ground (arith, few, many)
            ])))

-- After five codes that are not the one sent, counting those that were tried before, no code is
-- accepted any more at a later time, not even the right one: `Confirm` answers with an error and
-- changes nothing, and the proof of ownership is what it was at first. The conditions are that the
-- row of the challenge is not that of the proof, and that no new code is sent meanwhile.
pub confirm_rows-locked :
    (own_name proof_name user : String) (mac : String → String → String)
    (guesses : List (String × Time)) (digits : String) (later : Time) (rows : Rows)
    → own_name ≢ proof_name
    → All (IsWrong own_name proof_name user mac (challenge_of own_name rows) later) guesses
    → 5 ≤ (challenge_of own_name rows).attempts + length guesses
    → (get_notification proof_name (apply_guesses own_name proof_name user mac guesses rows)
        ≡ get_notification proof_name rows)
      × ((e : Error) × (confirm_rows own_name proof_name user mac digits later
              (apply_guesses own_name proof_name user mac guesses rows)
            ≡ ok (("", some e), apply_guesses own_name proof_name user mac guesses rows)))
confirm_rows-locked own_name proof_name user mac guesses digits later rows apart wrong enough =
    let v = challenge_of own_name rows in
    let proof = get_notification proof_name rows in
    let used =
      guesses-Used own_name proof_name user mac guesses v.attempts v proof later rows apart enough
        wrong (inr (omega arith), refl, refl, refl) in
    (
      used.3,
      Used-refuses own_name proof_name user mac digits v proof later
          (apply_guesses own_name proof_name user mac guesses rows) used,
    )
