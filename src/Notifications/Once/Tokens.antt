-- ===== src/Notifications/Once/Tokens.antt =====
-- Permissions to send: a call holds one from its intent until it calls the provider. What a step of a call
-- may do, and which calls only do such steps (internal/application/notifications).
use omnichannel_booking_assi.Prelude.{
  ℕ, ◌+◌, ◌≤◌, String, Bool, true, false, ◌&&◌, Option, none, some, List, [], ◌∷◌, ◌==◌, ◌≡◌, refl,
  sym, ap, subst, ◌∙◌, ◌⊎◌, inl, eq_iff, arith,
}
use mathlib.Core.Path.{ap₂}
use omnichannel_booking_assi.Domain.Errors.{Error, Result, ok, err}
use omnichannel_booking_assi.Memory.Notifications.{Rows, get_notification, read_rows}
use omnichannel_booking_assi.Notifications.Process.{
  World, Process, Call, Sending, done, step, then_do, on_result, ◌>>=◌, attempt,
}
use omnichannel_booking_assi.Notifications.Service.{
  Env, Change, key, query, now, fresh_id, transact, store_after, or_fail,
}
use omnichannel_booking_assi.Notifications.Attempts.{is_attempted}
use omnichannel_booking_assi.Memory.Notifications.Rows.{Ends, Keeps, transact-Keeps}

abbrev pub bit : Bool → ℕ
bit true = 1
bit false = 0

abbrev pub same_sending : Sending → Sending → Bool
same_sending s t = s.delivery == t.delivery && s.route == t.route

pub bit-le-one : (b : Bool) → bit b ≤ 1
bit-le-one true = omega arith
bit-le-one false = omega arith

pub same_sending-eq : (s t : Sending) → same_sending s t ≡ true → s ≡ t
same_sending-eq s t h =
    let delivery = (eq_iff s.delivery t.delivery).0 (ground (arith, h)) in
    let route = (eq_iff s.route t.route).0 (ground (arith, h)) in
    ap₂ (λ (d : String) (r : String). record { delivery = d; route = r }) delivery route

abbrev pub weight : Sending → Option Sending → ℕ
weight t none = 0
weight t (some s) = bit (same_sending s t)

-- How often a route of a notification stands in a list of sends.
abbrev pub count : Sending → List Sending → ℕ
count t [] = 0
count t (s ∷ sends) = bit (same_sending s t) + count t sends

module _ (env : Env) where
  -- Whether the route stands among the attempts in the delivery row of the notification.
  abbrev pub was_attempted : World → Sending → Bool
  was_attempted w t =
      is_attempted t.route (get_notification (key env "delivery" t.delivery) w.rows).attempted

  abbrev pub load : Sending → Option Sending → World → ℕ
  load t held w = weight t held + count t w.sent

  -- A step spends permissions, or takes one for a route that nobody has attempted.
  abbrev pub Allowed : Option Sending → Option Sending → World → World → Type 0
  Allowed held held' w w' =
      (t : Sending)
      → (was_attempted w t ≡ true → was_attempted w' t ≡ true)
        × ((load t held' w' ≤ load t held w)
            ⊎ ((was_attempted w t ≡ false)
                × (was_attempted w' t ≡ true)
                × (load t held' w' ≤ 1 + load t held w)))

  -- Every step of the process is allowed, whatever happens in between, and at its end `Q` holds.
  unfoldable pub Wp :
      {A : Type 0} → Process A → Option Sending → (Option Sending → A → Type 0) → Type 0
  Wp (done a) held Q = Q held a
  Wp (step act next) held Q =
      (w : World) → (held' : Option Sending) × Allowed held held' w (act w) × Wp (next w) held' Q

  pub then-Wp :
      {A B : Type 0} (p : Process A) (k : A → Process B) (held : Option Sending)
      (Q : Option Sending → A → Type 0) (R : Option Sending → B → Type 0)
      → Wp p held Q
      → ((h : Option Sending) (a : A) → Q h a → Wp (k a) h R)
      → Wp (then_do p k) held R
  unfolding Wp then_do
  then-Wp (done a) k held Q R h next = next held a h
  then-Wp (step act rest) k held Q R h next = λ w.
      let (held', allowed, more) = h w in (held', allowed, then-Wp (rest w) k held' Q R more next)

  -- What does not concern the sends.
  abbrev pub Same : World → World → Type 0
  Same w w' = ((x : String) → Keeps (key env "delivery" x) w.rows w'.rows) × (w'.sent ≡ w.sent)

  unfoldable pub Quiet : {A : Type 0} → Process A → Type 0
  Quiet (done a) = Unit
  Quiet (step act next) = (w : World) → Same w (act w) × Quiet (next w)

  pub then-Quiet :
      {A B : Type 0} (p : Process A) (k : A → Process B)
      → Quiet p
      → ((a : A) → Quiet (k a))
      → Quiet (then_do p k)
  unfolding Quiet then_do
  then-Quiet (done a) k h next = next a
  then-Quiet (step act rest) k h next = λ w. ((h w).0, then-Quiet (rest w) k (h w).1 next)

  pub on_result-Quiet :
      {A B : Type 0} (k : A → Call B)
      → ((a : A) → Quiet (k a))
      → (r : Result A) → Quiet (on_result k r)
  unfolding Quiet
  on_result-Quiet k h (ok a) = h a
  on_result-Quiet k h (err e) = tt

  pub bind-Quiet :
      {A B : Type 0} (p : Call A) (k : A → Call B)
      → Quiet p
      → ((a : A) → Quiet (k a))
      → Quiet (p >>= k)
  bind-Quiet p k h next = then-Quiet p (on_result k) h (on_result-Quiet k next)

  pub Same-Allowed : (held : Option Sending) (w w' : World) → Same w w' → Allowed held held w w'
  Same-Allowed held w w' same = λ t. (
    λ was. ap (is_attempted t.route) (same.0 t.delivery) ∙ was,
    inl (subst (λ n. weight t held + n ≤ load t held w) (ap (count t) (sym same.1)) (omega arith)),
  )

  -- A quiet call keeps the permission that is held.
  pub Quiet-Wp :
      {A : Type 0} (p : Process A) (held : Option Sending) (Q : Option Sending → A → Type 0)
      → Quiet p
      → ((a : A) → Q held a)
      → Wp p held Q
  unfolding Wp Quiet
  Quiet-Wp (done a) held Q h q = q a
  Quiet-Wp (step act next) held Q h q =
      λ w. (held, Same-Allowed held w (act w) (h w).0, Quiet-Wp (next w) held Q (h w).1 q)

  -- What the function of a transaction must keep.
  abbrev pub QuietChange : {A : Type 0} → Change A → Type 0
  QuietChange change =
      (x : String) (at : ℕ) (rows : Rows)
      → Ends (λ _ rows'. Keeps (key env "delivery" x) rows rows') (change at rows)

  or_fail-Quiet : {A : Type 0} (o : Option Error) (r : Result A) → Quiet (or_fail o r)
  unfolding Quiet
  or_fail-Quiet none r = tt
  or_fail-Quiet (some e) r = tt

  store_after-Same :
      {A : Type 0} (o : Option Error) (names : List String) (change : Change A) (w : World)
      → QuietChange change
      → Same w (store_after o names change w)
  store_after-Same (some e) names change w h = ((λ x. refl), refl)
  store_after-Same none names change w h = (
    λ x.
        transact-Keeps (key env "delivery" x) names (change w.clock) w.rows
          (h x w.clock (read_rows names w.rows)),
    refl,
  )

  pub transact-Quiet :
      {A : Type 0} (names : List String) (change : Change A)
      → QuietChange change
      → Quiet (transact env names change)
  unfolding Quiet transact
  transact-Quiet names change h = λ w. (
    store_after-Same (env.repository_error w) names change w h,
    or_fail-Quiet (env.repository_error w) _,
  )

  pub query-Quiet : {A : Type 0} (answer : Rows → A) → Quiet (query env answer)
  unfolding Quiet query
  query-Quiet answer = λ w. (((λ x. refl), refl), or_fail-Quiet (env.repository_error w) _)

  pub step-Quiet :
      {A : Type 0} (act : World → World) (next : World → Process A)
      → ((w : World) → Same w (act w) × Quiet (next w))
      → Quiet (step act next)
  unfolding Quiet
  step-Quiet act next h = h

  pub done-Quiet : {A : Type 0} (a : A) → Quiet (done a)
  unfolding Quiet
  done-Quiet a = tt

  pub now-Quiet : Quiet now
  unfolding Quiet now
  now-Quiet = λ w. (((λ x. refl), refl), tt)

  pub fresh_id-Quiet : Quiet (fresh_id env)
  unfolding Quiet fresh_id
  fresh_id-Quiet = λ w. (((λ x. refl), refl), tt)

  -- A step that only looks.
  pub look-Quiet :
      {A : Type 0} (next : World → Process A)
      → ((w : World) → Quiet (next w))
      → Quiet (step (λ w. w) next)
  unfolding Quiet
  look-Quiet next h = λ w. (((λ x. refl), refl), h w)

  pub attempt-Quiet : {A : Type 0} (p : Call A) → Quiet p → Quiet (attempt p)
  attempt-Quiet p h = then-Quiet p _ h (λ r. done-Quiet (ok r))

  pub step-Wp :
      {A : Type 0} (act : World → World) (next : World → Process A) (held : Option Sending)
      (Q : Option Sending → A → Type 0)
      → ((w : World)
          → (held' : Option Sending) × Allowed held held' w (act w) × Wp (next w) held' Q)
      → Wp (step act next) held Q
  unfolding Wp
  step-Wp act next held Q h = h

  pub done-Wp :
      {A : Type 0} (a : A) (held : Option Sending) (Q : Option Sending → A → Type 0)
      → Q held a
      → Wp (done a) held Q
  unfolding Wp
  done-Wp a held Q h = h
