-- ===== src/Base/Options.antt =====
-- Options and outcomes that are known to be some value.
use mathlib.Core.Path.{◌≡◌, refl, ap}
use mathlib.Core.Logic.{◌⊎◌, inl, inr}
use mathlib.Core.Option.{Option, none, some}
use soi_24z.Base.Outcome.{Run, ok, panic, fault, out_of_fuel, ◌>>=◌}

module _ {ℓ} {A : Type ℓ} where
  pub option_cases : (o : Option A) → (o ≡ none) ⊎ ((a : A) × (o ≡ some a))
  option_cases none = inl refl
  option_cases (some a) = inr (a, refl)

  pub the_value : (a b : A) → some a ≡ some b → a ≡ b
  the_value a b e = ap (λ o. elim o [ none ↦ a | some x ↦ x ]) e

  pub the_result : (a b : A) → ok a ≡ ok b → a ≡ b
  the_result a b e = ap (λ r. elim r [ ok x ↦ x | panic ↦ a | fault ↦ a | out_of_fuel ↦ a ]) e

-- A sequence that ends well has a first part that does.
pub >>=-ok {ℓ κ} :
    {A : Type ℓ} {B : Type κ} (r : Run A) (f : A → Run B) (b : B)
    → (r >>= f) ≡ ok b
    → (a : A) × (r ≡ ok a) × (f a ≡ ok b)
>>=-ok (ok a) f b e = (a, refl, e)
>>=-ok panic f b e = absurd (cc)
>>=-ok fault f b e = absurd (cc)
>>=-ok out_of_fuel f b e = absurd (cc)
