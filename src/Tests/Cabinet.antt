-- ===== src/Tests/Cabinet.antt =====
-- Tests of the proof of phone ownership.
use omnichannel_booking_assi.Prelude.{
  ◌≡◌, ◌≢◌, refl, ℕ, ◌+◌, ◌*◌, ◌≤◌, String, Bool, true, false, Option, none, some, List, [], ◌∷◌,
  All, eq_false→ne, arith, if◌then◌else◌, length,
}
use omnichannel_booking_assi.Prelude.Time.{Time, minute, second}
use omnichannel_booking_assi.Domain.Errors.{Error, ok}
use omnichannel_booking_assi.Memory.Notifications.{Rows, get_notification}
use omnichannel_booking_assi.Notifications.Entry.{empty_entry, empty_challenge}
use omnichannel_booking_assi.Notifications.Process.{World, run}
use omnichannel_booking_assi.Cabinet.{
  Identity, begin, send, confirm, confirm_rows, is_right, proof_key, challenge_key,
}
use omnichannel_booking_assi.Cabinet.Lockout.{
  IsWrong, challenge_of, apply_guesses, confirm_rows-locked,
}
use omnichannel_booking_assi.Tests.Worker.{env, before_all, number, start_time}

-- The code is always 123456, and the HMAC is the code itself.
abbrev identity : Identity
identity = record {
  sender = some (λ w text. none);
  has_secret = true;
  mac = λ provider user phone digits. digits;
  random_code = λ w. some "123456";
  random_id = λ w. some "00ff";
}

-- A code was asked for and sent.
abbrev asked : World
asked =
    (run (send env identity "telegram" "7" number "en")
      (run (begin env "telegram" "7") before_all).0).0

confirm_accepts : (run (confirm env identity "telegram" "7" "123456") asked).1 ≡ ok number
unfolding run confirm omnichannel_booking_assi.Notifications.Process.then_do
    omnichannel_booking_assi.Notifications.Service.transact
    omnichannel_booking_assi.Memory.Notifications.transact_notifications confirm_rows
    omnichannel_booking_assi.Prelude.Dict.lookup omnichannel_booking_assi.Prelude.Dict.insert
    proof_key omnichannel_booking_assi.Notifications.Service.key challenge_key send
    omnichannel_booking_assi.Domain.Phone.normalize_phone
    omnichannel_booking_assi.Prelude.Spaces.trim_space
    omnichannel_booking_assi.Domain.Phone.has_prefix
    omnichannel_booking_assi.Notifications.Service.now omnichannel_booking_assi.Cabinet.reserve_code
    begin omnichannel_booking_assi.Cabinet.begin_row omnichannel_booking_assi.Cabinet.check_budget
    is_right omnichannel_booking_assi.Cabinet.byte_length
confirm_accepts = refl

-- A challenge with its code, of which one wrong code was tried.
abbrev challenged : Rows
challenged =
    (
      "own",
      record empty_entry {
        verification = record empty_challenge {
          phone = number;
          hash = "123456";
          state = "code";
          expires_at = start_time + 5 * minute;
          attempts = 1;
        };
      },
    )
    ∷ []

abbrev plain_mac : String → String → String
plain_mac phone digits = digits

abbrev guesses : List (String × Time)
guesses =
    ("000000", start_time)
    ∷ ("111111", start_time + second)
    ∷ ("12345", start_time + 2 * second)
    ∷ ("654321", start_time + 3 * second)
    ∷ []

guesses-IsWrong :
    All
      (IsWrong "own" "proof" "7" plain_mac (challenge_of "own" challenged) (start_time + minute))
      guesses
unfolding is_right omnichannel_booking_assi.Cabinet.byte_length get_notification
    omnichannel_booking_assi.Prelude.Dict.lookup
guesses-IsWrong =
    ((refl, omega arith), ((refl, omega arith), ((refl, omega arith), ((refl, omega arith), tt))))

guesses_are_enough : 5 ≤ (challenge_of "own" challenged).attempts + length guesses
unfolding get_notification omnichannel_booking_assi.Prelude.Dict.lookup
guesses_are_enough = omega arith

confirm_rows-locked_example :
    (get_notification "proof" (apply_guesses "own" "proof" "7" plain_mac guesses challenged)
      ≡ get_notification "proof" challenged)
    × ((e : Error) × (confirm_rows "own" "proof" "7" plain_mac "123456"
            (start_time + minute)
            (apply_guesses "own" "proof" "7" plain_mac guesses challenged)
          ≡ ok (("", some e), apply_guesses "own" "proof" "7" plain_mac guesses challenged)))
confirm_rows-locked_example =
    confirm_rows-locked "own" "proof" "7" plain_mac guesses "123456" (start_time + minute)
      challenged (eq_false→ne "own" "proof" refl) guesses-IsWrong guesses_are_enough
