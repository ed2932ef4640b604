-- ===== src/Prelude/Colon.antt =====
-- Keys that join two texts by a colon determine both, if the first has no colon.
use Prim.Native.Char.{Char, code}
use Prim.Native.String.{String, ◌++◌}
use mathlib.Core.Path.{◌≡◌, refl, sym, ap, ap₂, ◌∙◌}
use mathlib.Core.Logic.{◌≢◌}
use text.Mathlib.TextLemmas.{nil-append, cons-append, head-eq_of_cons-eq, tail-eq_of_cons-eq}

abbrev pub NoColon : String → Type 0
NoColon String.[] = Unit
NoColon (String.◌∷◌ c s) = (code c ≢ b':') × NoColon s

-- The colon as a character.
abbrev colon : Char
colon = ":"

-- After an empty text the colon comes first.
colon_head : (x : String) → "" ++ ":" ++ x ≡ String.◌∷◌ colon x
colon_head x = nil-append (":" ++ x) ∙ cons-append colon "" x ∙ ap (String.◌∷◌ colon) (nil-append x)

cons_head : (c : Char) (p x : String) → String.◌∷◌ c p ++ x ≡ String.◌∷◌ c (p ++ x)
cons_head c p x = cons-append c p x

pub colon_inj :
    (p q x y : String) → NoColon p → NoColon q → p ++ ":" ++ x ≡ q ++ ":" ++ y → (p ≡ q) × (x ≡ y)
colon_inj String.[] String.[] x y h k e =
    (refl, tail-eq_of_cons-eq (sym (colon_head x) ∙ e ∙ colon_head y))
colon_inj String.[] (String.◌∷◌ d q) x y h k e =
    absurd (
      k.0
        (ap code (sym (head-eq_of_cons-eq (sym (colon_head x) ∙ e ∙ cons-append d q (":" ++ y))))))
colon_inj (String.◌∷◌ c p) String.[] x y h k e =
    absurd
      (h.0 (ap code (head-eq_of_cons-eq (sym (cons-append c p (":" ++ x)) ∙ e ∙ colon_head y))))
colon_inj (String.◌∷◌ c p) (String.◌∷◌ d q) x y h k e =
    let same = sym (cons-append c p (":" ++ x)) ∙ e ∙ cons-append d q (":" ++ y) in
    let (rest, tail) = colon_inj p q x y h.1 k.1 (tail-eq_of_cons-eq same) in
    (ap₂ String.◌∷◌ (head-eq_of_cons-eq same) rest, tail)
