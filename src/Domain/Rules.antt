-- ===== src/Domain/Rules.antt =====
-- To prove a property of a branch, prove it of each case: one rule for each kind of branch.
use omnichannel_booking_assi.Prelude.{
  ◌≡◌, refl, ◌⊎◌, inl, inr, Bool, true, false, Option, none, some, if◌then◌else◌,
}
use omnichannel_booking_assi.Domain.Errors.{Error, Result, ok, err}

pub if_rule {ℓ κ} :
    {A : Type ℓ} (P : A → Type κ) (b : Bool) {x y : A}
    → (b ≡ true → P x)
    → (b ≡ false → P y)
    → P (if b then x else y)
if_rule P true h k = h refl
if_rule P false h k = k refl

pub option_rule {ℓ κ ι} :
    {A : Type ℓ} {B : Type κ} (P : B → Type ι) (o : Option A) {x : B} {f : A → B}
    → (o ≡ none → P x)
    → ((a : A) → o ≡ some a → P (f a))
    → P (elim o [ none ↦ x | some a ↦ f a ])
option_rule P none h k = h refl
option_rule P (some a) h k = k a refl

pub result_rule {ℓ κ ι} :
    {A : Type ℓ} {B : Type κ} (P : B → Type ι) (o : Result A) {f : A → B} {g : Error → B}
    → ((a : A) → o ≡ ok a → P (f a))
    → ((e : Error) → o ≡ err e → P (g e))
    → P (elim o [ ok a ↦ f a | err e ↦ g e ])
result_rule P (ok a) h k = h a refl
result_rule P (err e) h k = k e refl

pub Result-cases {ℓ} :
    {A : Type ℓ} (r : Result A) → ((e : Error) × (r ≡ err e)) ⊎ ((a : A) × (r ≡ ok a))
Result-cases (ok a) = inr (a, refl)
Result-cases (err e) = inl (e, refl)
