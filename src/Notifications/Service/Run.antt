-- ===== src/Notifications/Service/Run.antt =====
-- What the parts of a call of internal/application/notifications do when nothing comes in between.
use omnichannel_booking_assi.Prelude.{◌≡◌, refl, Option, none, some, String, List}
use omnichannel_booking_assi.Domain.Errors.{Error, ok}
use omnichannel_booking_assi.Memory.Notifications.{Rows, transact_notifications}
use omnichannel_booking_assi.Notifications.Process.{World, Process, done, step, then_do, run}
use omnichannel_booking_assi.Notifications.Service.{
  Env, Change, transact, query, store_after, or_fail,
}

pub run-then_do :
    {A B : Type 0} (p : Process A) (k : A → Process B) (w : World)
    → run (then_do p k) w ≡ run (k (run p w).1) (run p w).0
unfolding run then_do
run-then_do (done a) k w = refl
run-then_do (step act next) k w = run-then_do (next w) k (act w)

-- The world after a transaction that the repository takes.
abbrev pub committed_world : {A : Type 0} → List String → Change A → World → World
committed_world names change w = record w {
  rows = (transact_notifications names (change w.clock) w.rows).0;
}

run-or_fail :
    {A : Type 0} (o : Option Error) (names : List String) (change : Change A) (w : World)
    → o ≡ none
    → run
        (or_fail o (transact_notifications names (change w.clock) w.rows).1)
        (store_after o names change w)
      ≡ (committed_world names change w, (transact_notifications names (change w.clock) w.rows).1)
unfolding run
run-or_fail none names change w h = refl
run-or_fail (some e) names change w h = cc

pub run-transact :
    {A : Type 0} (env : Env) (names : List String) (change : Change A) (w : World)
    → env.repository_error w ≡ none
    → run (transact env names change) w
      ≡ (committed_world names change w, (transact_notifications names (change w.clock) w.rows).1)
unfolding run transact
run-transact env names change w h = run-or_fail (env.repository_error w) names change w h

run-found :
    {A : Type 0} (o : Option Error) (a : A) (w : World)
    → o ≡ none
    → run (or_fail o (ok a)) w ≡ (w, ok a)
unfolding run
run-found none a w h = refl
run-found (some e) a w h = cc

pub run-query :
    {A : Type 0} (env : Env) (answer : Rows → A) (w : World)
    → env.repository_error w ≡ none
    → run (query env answer) w ≡ (w, ok (answer w.rows))
unfolding run query
run-query env answer w h = run-found (env.repository_error w) (answer w.rows) w h
