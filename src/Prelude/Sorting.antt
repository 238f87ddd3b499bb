-- ===== src/Prelude/Sorting.antt =====
-- `std::sort` with a comparator, as insertion sort, and `std::unique`.
use mathlib.Core.Path.{◌≡◌, refl}
use mathlib.Core.Logic.{◌⊎◌, inl, inr}
use mathlib.Core.Bool.{Bool, true, false}
use mathlib.Core.List.{List, [], ◌∷◌, Perm}
use mathlib.Core.List.Perm
use astraea.Prelude.Lists.{All, Any}
use astraea.Prelude.Tests.{if◌then◌else◌}

module _ {ℓ} {A : Type ℓ} (less : A → A → Bool) where
  unfoldable pub insert : A → List A → List A
  insert a [] = a ∷ []
  insert a (x ∷ xs) = elim (less x a) [ true ↦ x ∷ insert a xs | false ↦ a ∷ x ∷ xs ]

  unfoldable pub sort : List A → List A
  unfolding insert
  sort [] = []
  sort (x ∷ xs) = insert x (sort xs)

  insert-All {κ} : (P : A → Type κ) (a : A) (xs : List A) → P a → All P xs → All P (insert a xs)
  unfolding insert
  insert-All P a [] p h = (p, tt)
  insert-All P a (x ∷ xs) p h =
      elim (less x a) as (λ b. All P (elim b [ true ↦ x ∷ insert a xs | false ↦ a ∷ x ∷ xs ])) [
        | true ↦ (h.0, insert-All P a xs p h.1)
        | false ↦ (p, h)
      ]

  -- What holds of every element holds of every sorted element.
  pub sort-All {κ} : (P : A → Type κ) (xs : List A) → All P xs → All P (sort xs)
  unfolding sort
  sort-All P [] h = tt
  sort-All P (x ∷ xs) h = insert-All P x (sort xs) h.0 (sort-All P xs h.1)

  insert-perm : (a : A) (xs : List A) → Perm (insert a xs) (a ∷ xs)
  unfolding insert
  insert-perm a [] = Perm.rfl
  insert-perm a (x ∷ xs) =
      elim (less x a)
        as (λ b. Perm (elim b [ true ↦ x ∷ insert a xs | false ↦ a ∷ x ∷ xs ]) (a ∷ x ∷ xs)) [
          | true ↦ Perm.trans (Perm.cons x (insert-perm a xs)) (Perm.swap a x xs)
          | false ↦ Perm.rfl
        ]

  -- Sorting rearranges the elements.
  pub sort-perm : (xs : List A) → Perm (sort xs) xs
  unfolding sort
  sort-perm [] = Perm.rfl
  sort-perm (x ∷ xs) = Perm.trans (insert-perm x (sort xs)) (Perm.cons x (sort-perm xs))

  -- No element is before one that stands above it in the list.
  abbrev pub Sorted : List A → Type 0
  Sorted [] = Unit
  Sorted (x ∷ xs) = All (λ y. less y x ≡ false) xs × Sorted xs

module _ {ℓ} {A : Type ℓ} (less : A → A → Bool) where
  insert_first : (a : A) (xs : List A) → All (λ y. less y a ≡ false) xs → insert less a xs ≡ a ∷ xs
  unfolding insert
  insert_first a [] h = refl
  insert_first a (x ∷ xs) h = rw (insert, h.0) refl

  -- A sorted list stays as it is.
  pub sort_lem : (xs : List A) → Sorted less xs → sort less xs ≡ xs
  unfolding sort
  sort_lem [] h = refl
  sort_lem (x ∷ xs) h = rw (sort_lem xs h.1) (insert_first x xs h.0)

module _ {ℓ} {A : Type ℓ} (less : A → A → Bool) (P : A → Type 0) where
  insert-Any : (a : A) (xs : List A) → P a ⊎ Any P xs → Any P (insert less a xs)
  unfolding insert
  insert-Any a [] h = h
  insert-Any a (x ∷ xs) (inl p) =
      elim (less x a)
        as (λ b. Any P (elim b [ true ↦ x ∷ insert less a xs | false ↦ a ∷ x ∷ xs ])) [
          | true ↦ inr (insert-Any a xs (inl p))
          | false ↦ inl p
        ]
  insert-Any a (x ∷ xs) (inr (inl p)) =
      elim (less x a)
        as (λ b. Any P (elim b [ true ↦ x ∷ insert less a xs | false ↦ a ∷ x ∷ xs ])) [
          | true ↦ inl p
          | false ↦ inr (inl p)
        ]
  insert-Any a (x ∷ xs) (inr (inr k)) =
      elim (less x a)
        as (λ b. Any P (elim b [ true ↦ x ∷ insert less a xs | false ↦ a ∷ x ∷ xs ])) [
          | true ↦ inr (insert-Any a xs (inr k))
          | false ↦ inr (inr k)
        ]

  -- What holds of some element holds of some sorted element.
  pub sort-Any : (xs : List A) → Any P xs → Any P (sort less xs)
  unfolding sort
  sort-Any [] h = h
  sort-Any (x ∷ xs) (inl p) = insert-Any x (sort less xs) (inl p)
  sort-Any (x ∷ xs) (inr k) = insert-Any x (sort less xs) (inr (sort-Any xs k))

  insert-Any-inv : (a : A) (xs : List A) → Any P (insert less a xs) → P a ⊎ Any P xs
  unfolding insert
  insert-Any-inv a [] = λ h. h
  insert-Any-inv a (x ∷ xs) =
      elim (less x a)
        as (λ b.
          Any P (elim b [ true ↦ x ∷ insert less a xs | false ↦ a ∷ x ∷ xs ])
          → P a ⊎ (P x ⊎ Any P xs)) [
            | true ↦ λ h. elim h [
              | inl p ↦ inr (inl p)
              | inr k ↦ elim (insert-Any-inv a xs k) [ inl p ↦ inl p | inr q ↦ inr (inr q) ]
            ]
            | false ↦ λ h. h
          ]

  -- What holds of some sorted element holds of some element.
  pub sort-Any-inv : (xs : List A) → Any P (sort less xs) → Any P xs
  unfolding sort
  sort-Any-inv [] h = h
  sort-Any-inv (x ∷ xs) h = elim (insert-Any-inv x (sort less xs) h) [
    | inl p ↦ inl p
    | inr k ↦ inr (sort-Any-inv xs k)
  ]

module _ {ℓ} {A : Type ℓ} (less : A → A → Bool)
    (asym : (x y : A) → less x y ≡ true → less y x ≡ false)
    (trans : (x y z : A) → less y x ≡ false → less z y ≡ false → less z x ≡ false) where
  above :
      (a x : A) (xs : List A)
      → less x a ≡ false
      → All (λ y. less y x ≡ false) xs
      → All (λ y. less y a ≡ false) xs
  above a x [] h k = tt
  above a x (y ∷ ys) h k = (trans a x y h k.0, above a x ys h k.1)

  insert-Sorted : (a : A) (xs : List A) → Sorted less xs → Sorted less (insert less a xs)
  unfolding insert
  insert-Sorted a [] h = (tt, tt)
  insert-Sorted a (x ∷ xs) h =
      (elim (less x a)
          as (λ b.
            less x a ≡ b
            → Sorted less (elim b [ true ↦ x ∷ insert less a xs | false ↦ a ∷ x ∷ xs ])) [
              | true ↦ λ e. (
                insert-All less (λ y. less y x ≡ false) a xs (asym x a e) h.0,
                insert-Sorted a xs h.1,
              )
              | false ↦ λ e. ((e, above a x xs e h.0), h)
            ])
        refl

  pub sort-Sorted : (xs : List A) → Sorted less (sort less xs)
  unfolding sort
  sort-Sorted [] = tt
  sort-Sorted (x ∷ xs) = insert-Sorted x (sort less xs) (sort-Sorted xs)

-- `std::unique`: of neighbours that are equal, the first one stays.
module _ {ℓ} {A : Type ℓ} (equal : A → A → Bool) where
  unfoldable pub unique_from : A → List A → List A
  unique_from x [] = x ∷ []
  unique_from x (y ∷ ys) =
      let kept = unique_from x ys in
      let next = unique_from y ys in if equal x y then kept else x ∷ next

  unfoldable pub unique : List A → List A
  unfolding unique_from
  unique [] = []
  unique (x ∷ xs) = unique_from x xs
