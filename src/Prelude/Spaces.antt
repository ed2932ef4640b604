-- ===== src/Prelude/Spaces.antt =====
-- `strings.TrimSpace`, and the case-blind test of a prefix.
use Prim.Native.Char.{Char, code}
use Prim.Native.String.{String}
use Prim.Native.Nat.{ℕ, ◌+◌}
use mathlib.Core.Path.{◌≡◌, refl}
use mathlib.Core.Logic.{inl, inr}
use mathlib.Core.Bool.{Bool, true, false, ◌&&◌, ◌||◌}
use omnichannel_booking_assi.Prelude.Tests.{leb, eqb, if◌then◌else◌, Bool-cases}
use omnichannel_booking_assi.Prelude.Text.{is_empty}

-- `unicode.IsSpace`
unfoldable pub is_space : ℕ → Bool
is_space c =
    (leb 9 c && leb c 13)
    || eqb c 32
    || eqb c 0x85
    || eqb c 0xa0
    || eqb c 0x1680
    || (leb 0x2000 c && leb c 0x200a)
    || eqb c 0x2028
    || eqb c 0x2029
    || eqb c 0x202f
    || eqb c 0x205f
    || eqb c 0x3000

unfoldable pub trim_left : String → String
trim_left String.[] = ""
trim_left (String.◌∷◌ c s) = if is_space (code c) then trim_left s else String.◌∷◌ c s

-- A space that nothing but spaces follows is dropped.
abbrev cons_trimmed : Char → String → String
cons_trimmed c s = if is_empty s && is_space (code c) then "" else String.◌∷◌ c s

unfoldable pub trim_right : String → String
trim_right String.[] = ""
trim_right (String.◌∷◌ c s) = cons_trimmed c (trim_right s)

-- `strings.TrimSpace`
unfoldable pub trim_space : String → String
unfolding trim_left trim_right is_space
trim_space s = trim_right (trim_left s)

trim_right_idem : (s : String) → trim_right (trim_right s) ≡ trim_right s
unfolding trim_right
trim_right_idem String.[] = refl
trim_right_idem (String.◌∷◌ c s) =
    elim (Bool-cases (is_empty (trim_right s) && is_space (code c))) [
      | inl e ↦ rw e
      | inr e ↦ rw e (rw (trim_right_idem s) (rw e))
    ]

-- The text begins with no space.
abbrev StartsInk : String → Type 0
StartsInk String.[] = Unit
StartsInk (String.◌∷◌ c s) = is_space (code c) ≡ false

trim_left-StartsInk : (s : String) → StartsInk (trim_left s)
unfolding trim_left
trim_left-StartsInk String.[] = tt
trim_left-StartsInk (String.◌∷◌ c s) = elim (Bool-cases (is_space (code c))) [
  | inl e ↦ rw e (trim_left-StartsInk s)
  | inr e ↦ rw e e
]

trim_left_of_StartsInk : (s : String) → StartsInk s → trim_left s ≡ s
unfolding trim_left
trim_left_of_StartsInk String.[] h = refl
trim_left_of_StartsInk (String.◌∷◌ c s) h = rw h

-- What begins with no space still does once its end is trimmed.
trim_right-StartsInk : (s : String) → StartsInk s → StartsInk (trim_right s)
unfolding trim_right
trim_right-StartsInk String.[] h = tt
trim_right-StartsInk (String.◌∷◌ c s) h =
    elim (Bool-cases (is_empty (trim_right s) && is_space (code c))) [
      | inl e ↦ rw e tt
      | inr e ↦ rw e h
    ]

pub trim_space_idem : (s : String) → trim_space (trim_space s) ≡ trim_space s
unfolding trim_space
trim_space_idem s =
    let ink = trim_right-StartsInk (trim_left s) (trim_left-StartsInk s) in
    rw (trim_left_of_StartsInk _ ink) (trim_right_idem (trim_left s))

-- `strings.HasPrefix(strings.ToLower(s), prefix)` for a prefix of lower-case ASCII letters and
-- signs: no other letter that has one of them for its lower case stands in "https://".
unfoldable pub lower_code : ℕ → ℕ
lower_code c = if leb b'A' c && leb c b'Z' then c + 32 else c

unfoldable pub has_prefix_fold : String → String → Bool
has_prefix_fold s String.[] = true
has_prefix_fold String.[] (String.◌∷◌ d p) = false
has_prefix_fold (String.◌∷◌ c s) (String.◌∷◌ d p) =
    eqb (lower_code (code c)) (code d) && has_prefix_fold s p
