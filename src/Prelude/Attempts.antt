-- ===== src/Prelude/Attempts.antt =====
-- Code that can fail with an error, as `core::Result` says, or index outside its bytes: `none`
-- stands for the latter, which the source's `operator[]` leaves undefined.
use mathlib.Core.Path.{subst, ◌≡◌, refl}
use mathlib.Core.Bool.{Bool, true, false}
use mathlib.Core.Option.{Option, none, some}
use astraea.Prelude.Results.{Result, success, failure, fail_if}

abbrev pub Attempt {ℓ κ} : Type ℓ → Type κ → Type (ℓ ⊔ κ)
Attempt A E = Option (Result A E)

infixl 5 ◌>>=◌ ◌>>◌
abbrev pub ◌>>=◌ {ℓ κ μ} :
    {A : Type ℓ} {B : Type κ} {E : Type μ} → Attempt A E → (A → Attempt B E) → Attempt B E
none >>= f = none
some (failure e) >>= f = some (failure e)
some (success a) >>= f = f a

abbrev pub ◌>>◌ {ℓ μ} : {B : Type ℓ} {E : Type μ} → Attempt (Unit {0}) E → Attempt B E → Attempt B E
m >> k = m >>= λ _. k

abbrev pub read {ℓ κ} : {A : Type ℓ} {E : Type κ} → Option A → Attempt A E
read none = none
read (some a) = some (success a)

-- `if (test) return failure(e);`
abbrev pub check {ℓ} : {E : Type ℓ} → Bool → E → Attempt (Unit {0}) E
check b e = some (fail_if b e)

-- The code stays inside its bytes, and what it returns has the property.
abbrev pub Ensures {ℓ κ} :
    {A : Type ℓ} {E : Type κ} → (A → Type 0) → (E → Type 0) → Attempt A E → Type 0
Ensures P Q none = ⊥
Ensures P Q (some (failure e)) = Q e
Ensures P Q (some (success a)) = P a

module _ {ℓ κ} {A : Type ℓ} {E : Type κ} where
  pub Ensures->>= {μ} :
      {B : Type μ} (P : A → Type 0) (Q : E → Type 0) (R : B → Type 0) (m : Attempt A E)
      (f : A → Attempt B E)
      → Ensures P Q m
      → ((a : A) → m ≡ some (success a) → P a → Ensures R Q (f a))
      → Ensures R Q (m >>= f)
  Ensures->>= P Q R none f h k = absurd h
  Ensures->>= P Q R (some (failure e)) f h k = h
  Ensures->>= P Q R (some (success a)) f h k = k a refl h

  pub Ensures-read :
      (P : A → Type 0) (Q : E → Type 0) (o : Option A)
      → (a : A) × (o ≡ some a) × P a
      → Ensures P Q (read o)
  Ensures-read P Q none (a, e, p) = cc
  Ensures-read P Q (some b) (a, e, p) = subst P (cc) p

  pub Ensures-success :
      (P : A → Type 0) (Q : E → Type 0) (m : Attempt A E) {a : A}
      → Ensures P Q m
      → m ≡ some (success a)
      → P a
  Ensures-success P Q none h e = absurd h
  Ensures-success P Q (some (failure x)) h e = cc
  Ensures-success P Q (some (success b)) h e = subst P (cc) h

-- `Ensures->>=` with `check` before the rest.
pub Ensures-check {ℓ κ} :
    {A : Type ℓ} {E : Type κ} (P : A → Type 0) (Q : E → Type 0) (b : Bool) (e : E) (m : Attempt A E)
    → Q e
    → (b ≡ false → Ensures P Q m)
    → Ensures P Q (check b e >> m)
Ensures-check P Q true e m q k = q
Ensures-check P Q false e m q k = k refl

pub Ensures-weaken {ℓ κ} :
    {A : Type ℓ} {E : Type κ} (P R : A → Type 0) (Q : E → Type 0) (m : Attempt A E)
    → Ensures P Q m
    → ((a : A) → P a → R a)
    → Ensures R Q m
Ensures-weaken P R Q none h k = h
Ensures-weaken P R Q (some (failure e)) h k = h
Ensures-weaken P R Q (some (success a)) h k = k a h

pub Ensures-failure {ℓ κ} :
    {A : Type ℓ} {E : Type κ} (P : A → Type 0) (Q R : E → Type 0) (m : Attempt A E)
    → Ensures P Q m
    → ((e : E) → Q e → R e)
    → Ensures P R m
Ensures-failure P Q R none h k = h
Ensures-failure P Q R (some (failure e)) h k = k e h
Ensures-failure P Q R (some (success a)) h k = h

-- Inversion of a bind that succeeds.
pub inv_bind {ℓ κ μ} :
    {A : Type ℓ} {B : Type κ} {E : Type μ} (m : Attempt A E) (f : A → Attempt B E) {b : B}
    → (m >>= f) ≡ some (success b)
    → (a : A) × (m ≡ some (success a)) × (f a ≡ some (success b))
inv_bind none f h = cc
inv_bind (some (failure e)) f h = cc
inv_bind (some (success a)) f h = (a, refl, h)

pub Ensures-both {ℓ κ} :
    {A : Type ℓ} {E : Type κ} (P P' : A → Type 0) (Q Q' : E → Type 0) (m : Attempt A E)
    → Ensures P Q m
    → ((a : A) → P a → P' a)
    → ((e : E) → Q e → Q' e)
    → Ensures P' Q' m
Ensures-both P P' Q Q' none h k l = h
Ensures-both P P' Q Q' (some (failure e)) h k l = l e h
Ensures-both P P' Q Q' (some (success a)) h k l = k a h

pub bind_assoc {ℓ κ μ ν} :
    {A : Type ℓ} {B : Type κ} {C : Type μ} {E : Type ν} (m : Attempt A E) (f : A → Attempt B E)
    (g : B → Attempt C E)
    → ((m >>= f) >>= g) ≡ (m >>= λ a. f a >>= g)
bind_assoc none f g = refl
bind_assoc (some (failure e)) f g = refl
bind_assoc (some (success a)) f g = refl
