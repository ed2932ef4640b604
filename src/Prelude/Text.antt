-- ===== src/Prelude/Text.antt =====
-- Text: the empty test, and the library's comparison of whole texts.
use Prim.Native.String.{String}
use mathlib.Core.Path.{◌≡◌, refl}
use mathlib.Core.Logic.{◌≢◌, ◌⊎◌, inl, inr}
use mathlib.Core.Bool.{Bool, true, false}
use text.Mathlib.Text.{◌==◌}
use text.Mathlib.TextEquality.{eq_iff}
use omnichannel_booking_assi.Prelude.Tests.{Bool-cases}

-- `s == ""`
abbrev pub is_empty : String → Bool
is_empty String.[] = true
is_empty (String.◌∷◌ c s) = false

pub is_empty→eq : (s : String) → is_empty s ≡ true → s ≡ ""
is_empty→eq String.[] h = refl
is_empty→eq (String.◌∷◌ c s) h = cc

pub is_empty→ne : (s : String) → is_empty s ≡ false → s ≢ ""
is_empty→ne String.[] h = cc
is_empty→ne (String.◌∷◌ c s) h = λ e. cc

pub ne→is_empty : (s : String) → s ≢ "" → is_empty s ≡ false
ne→is_empty String.[] h = absurd (h refl)
ne→is_empty (String.◌∷◌ c s) h = refl

pub str_cases : (s t : String) → (s ≡ t) ⊎ (s ≢ t)
str_cases s t = elim (Bool-cases (s == t)) [
  | inl e ↦ inl ((eq_iff s t).0 e)
  | inr e ↦ inr (λ p. cc ((eq_iff s t).1 p))
]

pub eq_false→ne : (s t : String) → (s == t) ≡ false → s ≢ t
eq_false→ne s t h = λ p. cc ((eq_iff s t).1 p)
