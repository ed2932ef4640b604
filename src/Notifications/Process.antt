-- ===== src/Notifications/Process.antt =====
-- How a call of the notification service runs: a sequence of atomic steps on the repository, the clock
-- and what was sent, between which other calls may run.
use omnichannel_booking_assi.Prelude.{ℕ, suc, zero, String, List, [], ◌∷◌}
use omnichannel_booking_assi.Prelude.Time.{Time}
use omnichannel_booking_assi.Domain.Errors.{Error, Result, ok, err}
use omnichannel_booking_assi.Memory.Notifications.{Rows}

-- A call of `SendNotification`: the key text of its delivery row, and the route.
pub record Sending : Type 0 where
  pub delivery : String
  pub route : String

-- A call of `ScheduleNotification`, and one of `SMSFailureAlert`.
pub record Task : Type 0 where
  pub name : String
  pub event_id : String
  pub run_at : Time

pub record Alert : Type 0 where
  pub record_id : String
  pub event_id : String

-- A call of the cabinet's `SendCode`.
pub record CodeMessage : Type 0 where
  pub phone : String
  pub text : String
  pub request_id : String
  pub expires_at : Time

-- The repository, the clock, the number of identifiers made so far, and the calls of the collaborators.
pub record World : Type 0 where
  pub rows : Rows
  pub clock : Time
  pub made : ℕ
  pub sent : List Sending
  pub tasks : List Task
  pub alerts : List Alert
  pub codes : List CodeMessage

-- The rest of a call: it is over, or it does one step and goes on by what it found.
pub data Process (A : Type 0) : Type 0 where
  done : A → Process A
  step : (World → World) → (World → Process A) → Process A

abbrev pub Call : Type 0 → Type 0
Call A = Process (Result A)

unfoldable pub then_do : {A B : Type 0} → Process A → (A → Process B) → Process B
then_do (done a) rest = rest a
then_do (step act next) rest = step act (λ w. then_do (next w) rest)

abbrev pub on_result : {A B : Type 0} → (A → Call B) → Result A → Call B
on_result rest (ok a) = rest a
on_result rest (err e) = done (err e)

-- `if err != nil { return err }`
infixl 5 ◌>>=◌ ◌>>◌
abbrev pub ◌>>=◌ : {A B : Type 0} → Call A → (A → Call B) → Call B
call >>= rest = then_do call (on_result rest)

abbrev pub ◌>>◌ : {B : Type 0} → Call (Unit {0}) → Call B → Call B
call >> rest = call >>= λ _. rest

abbrev pub return : {A : Type 0} → A → Call A
return a = done (ok a)

-- `return nil`
abbrev pub nothing : Call (Unit {0})
nothing = done (ok tt)

abbrev pub fail : {A : Type 0} → Error → Call A
fail e = done (err e)

-- The error is looked at, not passed on.
abbrev pub attempt : {A : Type 0} → Call A → Call (Result A)
attempt call = then_do call (λ r. done (ok r))

-- One call from start to end, with nothing else in between.
unfoldable pub run : {A : Type 0} → Process A → World → World × A
run (done a) w = (w, a)
run (step act next) w = run (next w) (act w)

abbrev pub Pool : Type 0
Pool = List (Call (Unit {0}))

abbrev pub advance : {A : Type 0} → Process A → World → Process A × World
advance (done a) w = (done a, w)
advance (step act next) w = (next w, act w)

unfoldable pub take_turn : ℕ → Pool → World → Pool × World
take_turn n [] w = ([], w)
take_turn zero (call ∷ calls) w = let (call', w') = advance call w in (call' ∷ calls, w')
take_turn (suc n) (call ∷ calls) w = let (calls', w') = take_turn n calls w in (call ∷ calls', w')
