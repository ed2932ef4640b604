-- ===== src/Notifications/Once/Sends.antt =====
-- The loop of `Deliver` (internal/application/notifications/service.go) calls the provider only with a
-- permission that its own transaction has taken.
use omnichannel_booking_assi.Prelude.{
  String, true, false, ◌||◌, Option, none, some, List, [], ◌∷◌, ◌++◌, ◌==◌, ◌≡◌, refl, sym, ap,
  subst, ◌∙◌, inl, inr, Bool-cases, eq_iff, eq_refl, arith,
}
use omnichannel_booking_assi.Prelude.Dict.{insert}
use omnichannel_booking_assi.Prelude.Time.{Time}
use omnichannel_booking_assi.Domain.Errors.{Error, Result, ok}
use omnichannel_booking_assi.Domain.Rules.{if_rule}
use omnichannel_booking_assi.Memory.Notifications.{
  Rows, get_notification, read_rows, transact_notifications,
}
use omnichannel_booking_assi.Notifications.Entry.{Entry}
use omnichannel_booking_assi.Notifications.Process.{World, Sending}
use omnichannel_booking_assi.Notifications.Service.{
  Env, key, keep, put, transact, store_after, or_fail,
}
use omnichannel_booking_assi.Notifications.Attempts.{
  Reservation, reserved, already_rejected, final, is_attempted, is_closed, reserve, sending_entry,
}
use omnichannel_booking_assi.Memory.Notifications.Rows.{
  committed, transact-committed, committed-Keeps, write-insert, get-read_self, get-insert,
}
use omnichannel_booking_assi.Notifications.Once.Tokens.{
  Allowed, Wp, was_attempted, same_sending, bit-le-one, same_sending-eq, Same-Allowed,
}

is_attempted-append :
    (route : String) (xs ys : List String)
    → is_attempted route (xs ++ ys) ≡ (is_attempted route xs || is_attempted route ys)
unfolding is_attempted
is_attempted-append route [] ys = refl
is_attempted-append route (x ∷ xs) ys = elim (Bool-cases (x == route)) [
  | inl p ↦ rw p refl
  | inr p ↦ rw p (is_attempted-append route xs ys)
]

is_attempted-last :
    (route : String) (xs : List String) → is_attempted route (xs ++ route ∷ []) ≡ true
unfolding is_attempted
is_attempted-last route xs =
    rw (is_attempted-append route xs (route ∷ [])) (rw (eq_refl route) (ground (arith)))

is_attempted-more :
    (route other : String) (xs : List String)
    → is_attempted route xs ≡ true
    → is_attempted route (xs ++ other ∷ []) ≡ true
is_attempted-more route other xs h = rw (is_attempted-append route xs (other ∷ [])) (rw h refl)

module _ (env : Env) where
  -- The permission that a call holds if the reservation is its own.
  abbrev pub HoldsIfReserved : Sending → Option Sending → Result Reservation → Type 0
  HoldsIfReserved t held (ok reserved) = held ≡ some t
  HoldsIfReserved t held r = Unit

  module _ (x route : String) (at : Time) where
    abbrev name : String
    name = key env "delivery" x

    abbrev token : Sending
    token = record { delivery = x; route = route }

    abbrev with_entry : World → Entry → World
    with_entry w e = record w { rows = insert name e w.rows }

    -- The attempts of any notification after the intent is stored.
    attempts_after :
        (w : World) (t : Sending)
        → was_attempted env w t ≡ true
        → was_attempted env (with_entry w (sending_entry (get_notification name w.rows) route at)) t
          ≡ true
    attempts_after w t h =
        let d = key env "delivery" t.delivery in
        let e = sending_entry (get_notification name w.rows) route at in
        elim (Bool-cases (name == d)) [
          | inl p ↦ rw (get-insert name d e w.rows) (
              rw p (
                is_attempted-more t.route route (get_notification name w.rows).attempted (
                  ap (λ n. is_attempted t.route (get_notification n w.rows).attempted)
                    ((eq_iff name d).0 p)
                  ∙ h)))
          | inr p ↦ rw (get-insert name d e w.rows) (rw p h)
        ]

    reserved_token :
        (w : World)
        → was_attempted env
            (with_entry w (sending_entry (get_notification name w.rows) route at))
            token
          ≡ true
    reserved_token w =
        let e = sending_entry (get_notification name w.rows) route at in
        rw (get-insert name name e w.rows)
          (rw (eq_refl name) (is_attempted-last route (get_notification name w.rows).attempted))

    -- An intent for a route that the row does not have gives a permission.
    reserve-Allowed :
        (w : World) (held : Option Sending)
        → was_attempted env w token ≡ false
        → Allowed env held
            (some token)
            w
            (with_entry w (sending_entry (get_notification name w.rows) route at))
    reserve-Allowed w held fresh = λ t. (
      attempts_after w t,
      elim (Bool-cases (same_sending token t)) [
        | inl p ↦
            let same = same_sending-eq token t p in
            inr (
              subst (λ s. was_attempted env w s ≡ false) same fresh,
              subst
                  (λ s.
                    was_attempted env
                      (with_entry w (sending_entry (get_notification name w.rows) route at)) s
                    ≡ true)
                  same (reserved_token w),
              omega (arith, bit-le-one (same_sending token t)),
            )
        | inr p ↦ inl (rw p (omega arith))
      ],
    )

    idle-Allowed : (w : World) (held : Option Sending) → Allowed env held held w w
    idle-Allowed w held = λ t. (λ was. was, inl (omega arith))

    -- What the step of the reservation does, and the permission that is held at its end.
    abbrev Reserves : World → Option Sending → Rows × Result Reservation → Type 0
    Reserves w held (rows, r) =
        (held' : Option Sending) × Allowed env held held' w (record w { rows = rows })
        × HoldsIfReserved token held' r

    keep-Reserves :
        (w : World) (held : Option Sending) (r : Reservation)
        → HoldsIfReserved token held (ok r)
        → Reserves w held (committed (name ∷ []) w.rows (keep r (read_rows (name ∷ []) w.rows)))
    keep-Reserves w held r h =
        let rows = read_rows (name ∷ []) w.rows in
        (
          held,
          Same-Allowed env held w
              (record w { rows = (committed (name ∷ []) w.rows (keep r rows)).0 })
              (
                λ y. committed-Keeps (key env "delivery" y) (name ∷ []) w.rows (keep r rows) refl,
                refl,
              ),
          h,
        )

    put-Reserves :
        (w : World) (held : Option Sending)
        → is_attempted route (get_notification name (read_rows (name ∷ []) w.rows)).attempted
          ≡ false
        → Reserves w held (
            committed (name ∷ []) w.rows (
              put reserved name
                (sending_entry (get_notification name (read_rows (name ∷ []) w.rows)) route at)
                (read_rows (name ∷ []) w.rows)))
    put-Reserves w held fresh =
        let rows = read_rows (name ∷ []) w.rows in
        let same = get-read_self name w.rows in
        let written =
          write-insert name (sending_entry (get_notification name rows) route at) rows w.rows
          ∙ ap (λ e. insert name (sending_entry e route at) w.rows) same in
        subst (λ r. Reserves w held (r, ok reserved)) (sym written)
          (
            some token,
            reserve-Allowed w held
                (ap (λ (e : Entry). is_attempted route e.attempted) (sym same) ∙ fresh),
            refl,
          )

    reserve-Reserves :
        (w : World) (held : Option Sending)
        → Reserves w held (
            committed
              (name ∷ [])
              w.rows
              (reserve name route at w.clock (read_rows (name ∷ []) w.rows)))
    unfolding reserve
    reserve-Reserves w held =
        let rows = read_rows (name ∷ []) w.rows in
        let row = get_notification name rows in
        if_rule (λ r. Reserves w held (committed (name ∷ []) w.rows r)) (is_closed row)
          (λ _. keep-Reserves w held (final row.outcome) tt)
          (λ _.
            if_rule (λ r. Reserves w held (committed (name ∷ []) w.rows r))
              (is_attempted route row.attempted)
              (λ _. keep-Reserves w held (already_rejected row.outcome) tt)
              (λ fresh. put-Reserves w held fresh))

    step-Reserves :
        (w : World) (held : Option Sending) (o : Option Error)
        → (held' : Option Sending) × Allowed env held held' w
            (store_after o (name ∷ []) (reserve name route at) w)
          × Wp env
              (or_fail o
                (transact_notifications (name ∷ []) (reserve name route at w.clock) w.rows).1)
              held'
              (HoldsIfReserved token)
    unfolding Wp
    step-Reserves w held (some e) = (held, idle-Allowed w held, tt)
    step-Reserves w held none =
        subst (Reserves w held)
          (sym (transact-committed (name ∷ []) (reserve name route at w.clock) w.rows))
          (reserve-Reserves w held)

    -- The transaction of the reservation gives the permission that its answer promises.
    pub reserve-Wp :
        (held : Option Sending)
        → Wp env (transact env (name ∷ []) (reserve name route at)) held (HoldsIfReserved token)
    unfolding transact Wp
    reserve-Wp held = λ w. step-Reserves w held (env.repository_error w)

    -- The call of the provider spends the permission.
    pub send-Allowed :
        (w : World) (held : Option Sending)
        → held ≡ some token
        → Allowed env held none w (record w { sent = token ∷ w.sent })
    send-Allowed w held h = λ t. (λ was. was, inl (rw h (omega arith)))
