-- ===== src/Reminders/Language.antt =====
-- internal/application/appointmentmessage/message.go: the languages of the messages.
use Prim.Native.Char.{code}
use omnichannel_booking_assi.Prelude.{
  ℕ, String, Bool, true, false, ◌&&◌, List, [], ◌∷◌, eqb, if◌then◌else◌,
}
use omnichannel_booking_assi.Prelude.Spaces.{trim_space, lower_code}

pub data Language : Type 0 where
  english armenian russian : Language

-- `string(lang)`
unfoldable pub tag_of : Language → String
tag_of english = "en"
tag_of armenian = "hy"
tag_of russian = "ru"

-- `strings.ToLower` and the part of `strings.Cut` before the first "-", as code points. No sign but the
-- ASCII capitals has one of the letters of the two tags for its lower case.
unfoldable pub base_of : String → List ℕ
unfolding lower_code
base_of String.[] = []
base_of (String.◌∷◌ c s) =
    let rest = base_of s in if eqb (code c) b'-' then [] else lower_code (code c) ∷ rest

abbrev pub same_codes : List ℕ → List ℕ → Bool
same_codes [] [] = true
same_codes (a ∷ xs) (b ∷ ys) = eqb a b && same_codes xs ys
same_codes _ _ = false

unfoldable pub parse_language : String → Language
unfolding base_of trim_space
parse_language tag =
    let base = base_of (trim_space tag) in
    if same_codes base (b'h' ∷ b'y' ∷ [])
    then armenian
    else if same_codes base (b'r' ∷ b'u' ∷ [])
    then russian
    else english

-- What a message says of an appointment.
pub record Appointment : Type 0 where
  pub calendar_url : String
  pub customer_name : String
  pub starts_at : ℕ
  pub service : String
  pub specialist : String
  pub reference : String
