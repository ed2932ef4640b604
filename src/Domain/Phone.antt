-- ===== src/Domain/Phone.antt =====
-- internal/domain/customer/phone.go: `NormalizePhone`. The package `phonenumbers` is a parameter: the
-- E.164 text of what it parses with the region AM and finds valid.
pub mod Normal
use Prim.Native.Char.{Char, code}
use Prim.Native.String as Text
use omnichannel_booking_assi.Prelude.{
  ℕ, suc, String, Bool, true, false, not, ◌&&◌, ◌||◌, Option, none, some, leb, eqb, if◌then◌else◌,
}
use omnichannel_booking_assi.Prelude.Spaces.{is_space, trim_space}
use omnichannel_booking_assi.Domain.Errors.{Error, Result, ok, err, message}

abbrev pub is_digit : ℕ → Bool
is_digit c = leb b'0' c && leb c b'9'

-- `strings.ContainsRune("()-.", r)`
abbrev pub is_separator : ℕ → Bool
is_separator c = eqb c b'(' || eqb c b')' || eqb c b'-' || eqb c b'.'

abbrev pub add_char : Char → Option String → Option String
add_char c none = none
add_char c (some s) = some (String.◌∷◌ c s)

-- The loop: the digits, with a plus before them if it comes first; none for any other character.
unfoldable pub scan : Bool → String → Option String
scan first String.[] = some ""
scan first (String.◌∷◌ c s) =
    let rest = scan false s in
    if is_digit (code c)
    then add_char c rest
    else if eqb (code c) b'+' && first
    then add_char c rest
    else if is_space (code c) || is_separator (code c)
    then rest
    else none

unfoldable pub has_prefix : String → String → Bool
has_prefix s String.[] = true
has_prefix String.[] (String.◌∷◌ d p) = false
has_prefix (String.◌∷◌ c s) (String.◌∷◌ d p) = eqb (code c) (code d) && has_prefix s p

-- `s[1:]`
abbrev pub tail : String → String
tail String.[] = ""
tail (String.◌∷◌ c s) = s

-- The number of characters; all of them are ASCII here, so it is that of the bytes.
unfoldable pub size : String → ℕ
size String.[] = 0
size (String.◌∷◌ c s) = suc (size s)

abbrev pub exit_code : String → String
exit_code s = if has_prefix s "00" then Text.◌++◌ "+" (tail (tail s)) else s

abbrev pub country_code : String → String
country_code s = if has_prefix s "374" && eqb (size s) 11 then Text.◌++◌ "+" s else s

abbrev pub is_national : String → Bool
is_national s = eqb (size s) 8 || eqb (size s) 9 && has_prefix s "0"

-- The number behind the loop.
unfoldable pub normalize_input : (String → Option String) → String → Result String
normalize_input parse s =
    let input = country_code (exit_code s) in
    if not (has_prefix input "+") && not (is_national input)
    then err (message "not a usable phone number; please include the international country code")
    else elim (parse input) [
      | none ↦
          err (message "that phone number is not valid; please check the digits and country code")
      | some e164 ↦ ok e164
    ]

-- `NormalizePhone`
unfoldable pub normalize_phone : (String → Option String) → String → Result String
unfolding scan normalize_input
normalize_phone parse raw = elim (scan true (trim_space raw)) [
  | none ↦ err (message "not a phone number; please provide digits with country code")
  | some s ↦ normalize_input parse s
]
