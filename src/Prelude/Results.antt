-- ===== src/Prelude/Results.antt =====
-- `core::Result` of include/astraea/core/result.hpp, and the same with a third outcome for an index
-- out of bounds, which the source's `operator[]` leaves undefined.
use mathlib.Core.Path.{◌≡◌, refl}
use mathlib.Core.Logic.{◌⊎◌, inl, inr}
use mathlib.Core.Bool.{Bool, true, false}

pub data Result {ℓ κ} (A : Type ℓ) (E : Type κ) : Type (ℓ ⊔ κ) where
  success : A → Result A E
  failure : E → Result A E

module _ {ℓ κ} {A : Type ℓ} {E : Type κ} where
  abbrev pub has_value : Result A E → Bool
  has_value (success a) = true
  has_value (failure e) = false

  pub Result-cases : (r : Result A E) → ((a : A) × (r ≡ success a)) ⊎ ((e : E) × (r ≡ failure e))
  Result-cases (success a) = inl (a, refl)
  Result-cases (failure e) = inr (e, refl)

infixl 5 ◌>>=◌ ◌>>◌
abbrev pub ◌>>=◌ {ℓ κ μ} :
    {A : Type ℓ} {B : Type κ} {E : Type μ} → Result A E → (A → Result B E) → Result B E
success a >>= f = f a
failure e >>= f = failure e

abbrev pub ◌>>◌ {ℓ μ} : {B : Type ℓ} {E : Type μ} → Result (Unit {0}) E → Result B E → Result B E
m >> k = m >>= λ _. k

-- `if (test) return failure(e);`
abbrev pub fail_if {ℓ} : {E : Type ℓ} → Bool → E → Result (Unit {0}) E
fail_if true e = failure e
fail_if false e = success tt

-- Inversion of a bind that succeeds.
pub >>=-eq-success {ℓ κ μ} :
    {A : Type ℓ} {B : Type κ} {E : Type μ} (m : Result A E) (f : A → Result B E) {b : B}
    → (m >>= f) ≡ success b
    → (a : A) × (m ≡ success a) × (f a ≡ success b)
>>=-eq-success (success a) f h = (a, refl, h)
>>=-eq-success (failure e) f h = cc
