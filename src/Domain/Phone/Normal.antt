-- ===== src/Domain/Phone/Normal.antt =====
-- A phone number in normal form stays as it is.
use Prim.Native.Char.{code}
use omnichannel_booking_assi.Prelude.{
  ℕ, ◌≡◌, refl, String, true, false, Option, some, arith, Option-cases, inl, inr,
}
use omnichannel_booking_assi.Prelude.Spaces.{is_space, trim_left, trim_right, trim_space}
use omnichannel_booking_assi.Domain.Errors.{ok}
use omnichannel_booking_assi.Domain.Phone.{
  is_digit, scan, has_prefix, normalize_input, normalize_phone, country_code, exit_code,
}

abbrev AllDigits : String → Type 0
AllDigits String.[] = Unit
AllDigits (String.◌∷◌ c s) = (is_digit (code c) ≡ true) × AllDigits s

-- A plus and digits.
abbrev pub IsE164 : String → Type 0
IsE164 String.[] = ⊥
IsE164 (String.◌∷◌ c s) = (code c ≡ b'+') × AllDigits s

digit_ink : (c : ℕ) → is_digit c ≡ true → is_space c ≡ false
unfolding is_space
digit_ink c h = ground arith

plus_ink : (c : ℕ) → c ≡ b'+' → is_space c ≡ false
unfolding is_space
plus_ink c h = ground arith

trim_right-digits : (s : String) → AllDigits s → trim_right s ≡ s
unfolding trim_right
trim_right-digits String.[] h = refl
trim_right-digits (String.◌∷◌ c s) h =
    rw (trim_right-digits s h.1) (ground (arith, digit_ink (code c) h.0))

trim-e164 : (s : String) → IsE164 s → trim_space s ≡ s
unfolding trim_space trim_left trim_right
trim-e164 String.[] h = absurd h
trim-e164 (String.◌∷◌ c s) h =
    let ink = plus_ink (code c) h.0 in rw ink (rw (trim_right-digits s h.1) (ground (arith, ink)))

scan-digits : (s : String) → AllDigits s → scan false s ≡ some s
unfolding scan
scan-digits String.[] h = refl
scan-digits (String.◌∷◌ c s) h = ground (arith, scan-digits s h.1)

scan-e164 : (s : String) → IsE164 s → scan true s ≡ some s
unfolding scan
scan-e164 String.[] h = absurd h
scan-e164 (String.◌∷◌ c s) h = ground (arith, scan-digits s h.1)

input-e164 :
    (parse : String → Option String) (s : String)
    → IsE164 s
    → parse s ≡ some s
    → normalize_input parse s ≡ ok s
unfolding normalize_input has_prefix
input-e164 parse String.[] h e = absurd h
input-e164 parse (String.◌∷◌ c s) h e = ground arith

normalize-e164 :
    (parse : String → Option String) (s : String)
    → IsE164 s
    → parse s ≡ some s
    → normalize_phone parse s ≡ ok s
unfolding normalize_phone
normalize-e164 parse s h e =
    rw (trim-e164 s h, normalize_phone) (rw (scan-e164 s h) (input-e164 parse s h e))

parsed :
    (parse : String → Option String) (raw phone : String)
    → normalize_phone parse raw ≡ ok phone
    → (s : String) × (parse s ≡ some phone)
unfolding normalize_phone normalize_input
parsed parse raw phone h = elim (Option-cases (scan true (trim_space raw))) [
  | inl e ↦ absurd (ground arith)
  | inr (s, e) ↦ (country_code (exit_code s), ground arith)
]

-- If the phone library's numbers are a plus and digits, and it parses each of them to itself, then
-- a number that was normalized is accepted again and stays the same, so stored numbers can be
-- compared.
pub normalize_phone_idem :
    (parse : String → Option String) (raw phone : String)
    → ((s p : String) → parse s ≡ some p → IsE164 p × (parse p ≡ some p))
    → normalize_phone parse raw ≡ ok phone
    → normalize_phone parse phone ≡ ok phone
normalize_phone_idem parse raw phone lib h =
    let (s, e) = parsed parse raw phone h in
    let (shape, same) = lib s phone e in normalize-e164 parse phone shape same
