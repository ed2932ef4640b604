-- ===== src/Notifications/Once/Kinds.antt =====
-- Why rows of different kinds are different rows (`Key` of internal/application/notifications/service.go).
use Prim.Native.Char.{code}
use Prim.Native.String.{◌++◌}
use text.Mathlib.TextLemmas.{cons-append, head-eq_of_cons-eq, tail-eq_of_cons-eq}
use omnichannel_booking_assi.Prelude.{
  String, Bool, true, false, eqb, ◌≡◌, ◌≢◌, sym, ap, ◌∙◌, inl, inr, Bool-cases, arith,
  if◌then◌else◌,
}
use omnichannel_booking_assi.Notifications.Service.{Env, key}

-- The texts differ at a place before either ends.
abbrev pub diverges : String → String → Bool
diverges String.[] t = false
diverges (String.◌∷◌ c s) String.[] = false
diverges (String.◌∷◌ c s) (String.◌∷◌ d t) =
    let rest = diverges s t in if eqb (code c) (code d) then rest else true

pub diverges-ne : (s t x y : String) → diverges s t ≡ true → s ++ x ≢ t ++ y
diverges-ne String.[] t x y h = cc
diverges-ne (String.◌∷◌ c s) String.[] x y h = cc
diverges-ne (String.◌∷◌ c s) (String.◌∷◌ d t) x y h = λ e.
    let same = sym (cons-append c s x) ∙ e ∙ cons-append d t y in
    let heads = ap code (head-eq_of_cons-eq same) in
    elim (Bool-cases (eqb (code c) (code d))) [
      | inl p ↦ diverges-ne s t x y (ground (arith, p, h)) (tail-eq_of_cons-eq same)
      | inr p ↦ ground (arith, p, heads)
    ]

-- Rows of kinds that differ have different keys, whatever the digest is.
pub key-ne :
    (env : Env) (kind other id x : String)
    → diverges kind other ≡ true
    → key env kind id ≢ key env other x
unfolding key
key-ne env kind other id x h = diverges-ne kind other _ _ h
