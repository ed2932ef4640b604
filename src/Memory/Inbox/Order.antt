-- ===== src/Memory/Inbox/Order.antt =====
-- The order of the conversations in the staff inbox is strict and total on keys.
use Prim.Native.Char.{code}
use text.Mathlib.TextEquality.{Char-path}
use omnichannel_booking_assi.Prelude.{
  ◌≡◌, ◌≢◌, refl, inl, inr, String, true, false, arith, eqb, Bool-cases,
}
use omnichannel_booking_assi.Memory.Pages.{Cursor}
use omnichannel_booking_assi.Memory.Inbox.{text_less, comes_before}

pub text_less_trans :
    (s t u : String) → text_less s t ≡ true → text_less t u ≡ true → text_less s u ≡ true
unfolding text_less
text_less_trans String.[] String.[] u h k = cc
text_less_trans String.[] (String.◌∷◌ d t) String.[] h k = cc
text_less_trans String.[] (String.◌∷◌ d t) (String.◌∷◌ e u) h k = refl
text_less_trans (String.◌∷◌ c s) String.[] u h k = cc
text_less_trans (String.◌∷◌ c s) (String.◌∷◌ d t) String.[] h k = cc
text_less_trans (String.◌∷◌ c s) (String.◌∷◌ d t) (String.◌∷◌ e u) h k =
    ground (arith, text_less_trans s t u)

pub text_less_irrefl : (s : String) → text_less s s ≡ false
unfolding text_less
text_less_irrefl String.[] = refl
text_less_irrefl (String.◌∷◌ c s) = ground (arith, text_less_irrefl s)

pub text_less_asym : (s t : String) → text_less s t ≡ true → text_less t s ≡ false
text_less_asym s t h = elim (Bool-cases (text_less t s)) [
  | inr no_way ↦ no_way
  | inl back ↦ absurd (ground (arith, text_less_trans s t s h back, text_less_irrefl s))
]

pub comes_before_trans :
    (c d e : Cursor) → comes_before c d ≡ true → comes_before d e ≡ true → comes_before c e ≡ true
unfolding comes_before
comes_before_trans c d e h k = ground (arith, text_less_trans e.key d.key c.key)

pub comes_before_asym : (c d : Cursor) → comes_before c d ≡ true → comes_before d c ≡ false
unfolding comes_before
comes_before_asym c d h = ground (arith, text_less_asym d.key c.key, text_less_asym c.key d.key)

pub text_less_total : (s t : String) → s ≢ t → text_less s t ≡ false → text_less t s ≡ true
unfolding text_less
text_less_total String.[] String.[] ne h = absurd (ne refl)
text_less_total String.[] (String.◌∷◌ d t) ne h = cc
text_less_total (String.◌∷◌ c s) String.[] ne h = refl
text_less_total (String.◌∷◌ c s) (String.◌∷◌ d t) ne h = elim (Bool-cases (eqb (code c) (code d))) [
  | inr differ ↦ ground arith
  | inl same ↦
      let heads : c ≡ d = Char-path c d (ground arith) in
      let tails : s ≢ t = λ e. ne (cc (heads, e)) in ground (arith, text_less_total s t tails)
]
