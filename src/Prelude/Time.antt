-- ===== src/Prelude/Time.antt =====
-- Go's `time` package as far as the program uses it. A `time.Time` is the number of nanoseconds since
-- Go's zero time (1 January of the year 1, UTC), so that the zero value is 0; a `time.Duration` is a
-- signed number of nanoseconds. `Sub` saturates 292 years away from zero, which no comparison of the
-- program can see: each compares with at most a few weeks.
use Prim.Native.Nat.{ℕ, ◌+◌, ◌-◌, ◌*◌}
use mathlib.Core.Bool.{Bool}
use omnichannel_booking_assi.Prelude.Tests.{ltb, eqb}
use omnichannel_booking_assi.Prelude.Int.{ℤ, pos_part, neg_part, sub_ℕ}

abbrev pub Time : Type 0
Time = ℕ

abbrev pub Duration : Type 0
Duration = ℤ

abbrev pub is_zero : Time → Bool
is_zero t = eqb t 0

-- `t.After(u)`
abbrev pub after : Time → Time → Bool
after t u = ltb u t

-- `t.Before(u)`
abbrev pub before : Time → Time → Bool
before t u = ltb t u

-- `t.Sub(u)`
abbrev pub sub : Time → Time → Duration
sub t u = sub_ℕ t u

-- `t.Add(d)`
abbrev pub add : Time → Duration → Time
add t d = t + pos_part d - neg_part d

abbrev pub second : ℕ
second = 1_000_000_000

abbrev pub minute : ℕ
minute = 60 * second

abbrev pub hour : ℕ
hour = 3600 * second

abbrev pub day : ℕ
day = 24 * hour
