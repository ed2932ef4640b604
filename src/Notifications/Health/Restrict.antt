-- ===== src/Notifications/Health/Restrict.antt =====
-- internal/application/notifications/health.go: a channel that was blocked is not used before the next probe.
use omnichannel_booking_assi.Prelude.{
  ◌≡◌, refl, sym, ap, subst, ◌∙◌, ◌⊎◌, inl, inr, ◌+◌, ◌<◌, String, Bool, true, false, not, ◌&&◌,
  none, [], ◌∷◌, arith, eq_refl, if◌then◌else◌, Bool-cases,
}
use omnichannel_booking_assi.Prelude.Dict.{insert}
use omnichannel_booking_assi.Prelude.Time.{Time, after, minute}
use omnichannel_booking_assi.Domain.Errors.{ok}
use omnichannel_booking_assi.Memory.Notifications.{Rows, get_notification, read_rows}
use omnichannel_booking_assi.Memory.Notifications.Rows.{get-insert_self, transact-get}
use omnichannel_booking_assi.Notifications.Entry.{Entry, allows}
use omnichannel_booking_assi.Notifications.Process.{
  World, Call, run, on_result, return, ◌>>=◌, then_do,
}
use omnichannel_booking_assi.Notifications.Service.{Env, HealthGuard, now, get}
use omnichannel_booking_assi.Notifications.Service.Run.{
  run-then_do, run-query, run-transact, committed_world,
}
use omnichannel_booking_assi.Notifications.Health.{
  health_key, guard_allows, refreshed_allows, allowed_by, block, block_row, blocked_row,
}

-- The part of `Allows` behind the reading of the row.
abbrev decide : Env → HealthGuard → String → String → Entry → Call Bool
decide env guard template language row = now >>= λ at.
    if row.operator_paused
    then return false
    else if after row.next_lookup_at at
    then return (allowed_by row template language)
    else refreshed_allows env guard template language

paused :
    (env : Env) (guard : HealthGuard) (template language : String) (row : Entry) (w : World)
    → row.operator_paused ≡ true
    → run (decide env guard template language row) w ≡ (w, ok (allowed_by row template language))
unfolding run then_do now
paused env guard template language row w h =
    ap
      (λ b.
        run
          (if b
            then return false
            else if after row.next_lookup_at w.clock
            then return (allowed_by row template language)
            else refreshed_allows env guard template language)
          w)
      h
    ∙ ap (λ b. (w, ok (not b && allows row.health template language))) (sym h)

known :
    (env : Env) (guard : HealthGuard) (template language : String) (row : Entry) (w : World)
    → row.operator_paused ≡ false
    → after row.next_lookup_at w.clock ≡ true
    → run (decide env guard template language row) w ≡ (w, ok (allowed_by row template language))
unfolding run then_do now
known env guard template language row w h k =
    ap
      (λ b.
        run
          (if b
            then return false
            else if after row.next_lookup_at w.clock
            then return (allowed_by row template language)
            else refreshed_allows env guard template language)
          w)
      h
    ∙ ap
        (λ b.
          run
            (if b
              then return (allowed_by row template language)
              else refreshed_allows env guard template language)
            w)
        k

decided :
    (env : Env) (guard : HealthGuard) (template language : String) (row : Entry) (w : World)
    → (row.operator_paused ≡ true) ⊎ (after row.next_lookup_at w.clock ≡ true)
    → run (decide env guard template language row) w ≡ (w, ok (allowed_by row template language))
decided env guard template language row w (inl h) = paused env guard template language row w h
decided env guard template language row w (inr k) = elim (Bool-cases row.operator_paused) [
  | inl p ↦ paused env guard template language row w p
  | inr p ↦ known env guard template language row w p k
]

-- What `Allows` answers when the operator has paused the channel, or no probe is due.
run-guard_allows :
    (env : Env) (guard : HealthGuard) (template language : String) (w : World)
    → env.repository_error w ≡ none
    → ((get_notification (health_key env guard) w.rows).operator_paused ≡ true)
      ⊎ (after (get_notification (health_key env guard) w.rows).next_lookup_at w.clock ≡ true)
    → run (guard_allows env guard template language) w
      ≡ (w, ok (allowed_by (get_notification (health_key env guard) w.rows) template language))
unfolding guard_allows get
run-guard_allows env guard template language w works h =
    let next = on_result (decide env guard template language) in
    run-then_do (get env (health_key env guard)) next w
    ∙ ap (λ z. run (next z.1) z.0) (run-query env (get_notification (health_key env guard)) w works)
    ∙ decided env guard template language (get_notification (health_key env guard) w.rows) w h

-- The row that `Block` leaves.
row_after :
    (name : String) (at : Time) (rows : Rows)
    → get_notification name
        (omnichannel_booking_assi.Memory.Notifications.transact_notifications
          (name ∷ [])
          (block_row name at)
          rows).0
      ≡ blocked_row (get_notification name (read_rows (name ∷ []) rows)) at
row_after name at rows =
    let row = blocked_row (get_notification name (read_rows (name ∷ []) rows)) at in
    transact-get name (name ∷ []) (block_row name at) rows tt
      (insert name row (read_rows (name ∷ []) rows)) (ground (arith, eq_refl name)) refl
    ∙ get-insert_self name row (read_rows (name ∷ []) rows)

blocked-allowed_by :
    (row : Entry) (template language : String)
    → row.health.blocked ≡ true
    → allowed_by row template language ≡ false
unfolding allows
blocked-allowed_by row template language h = ground (arith, h)

-- After `Block`, and before a minute has passed since, `Allows` answers no for every template and
-- language, whatever the channel's row was before, and changes nothing. The condition is that the
-- repository does not fail.
pub guard_allows-block :
    (env : Env) (guard : HealthGuard) (template language : String) (w : World) (later : Time)
    → ((v : World) → env.repository_error v ≡ none)
    → later < w.clock + minute
    → run
        (guard_allows env guard template language)
        (record (run (block env guard) w).0 { clock = later })
      ≡ (record (run (block env guard) w).0 { clock = later }, ok false)
unfolding block
guard_allows-block env guard template language w later works early =
    let name = health_key env guard in
    let v = record (committed_world (name ∷ []) (block_row name) w) { clock = later } in
    let stored = row_after name w.clock w.rows in
    let blocked = run-transact env (name ∷ []) (block_row name) w (works w) in
    let waits : after (get_notification name v.rows).next_lookup_at later ≡ true =
      ap (λ (e : Entry). after e.next_lookup_at later) stored ∙ ground (arith, early) in
    subst
      (λ (u : World).
        run (guard_allows env guard template language) (record u { clock = later })
        ≡ (record u { clock = later }, ok false))
      (sym (ap (λ z. z.0) blocked))
      (run-guard_allows env guard template language v (works v) (inr waits)
        ∙ ap (λ b. (v, ok b))
            (blocked-allowed_by (get_notification name v.rows) template language
              (ap (λ (e : Entry). e.health.blocked) stored)))
