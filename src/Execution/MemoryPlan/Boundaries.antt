-- ===== src/Execution/MemoryPlan/Boundaries.antt =====
-- The page boundaries of build_execution_memory_plan: sorted, each once.
use astraea.Prelude.{
  ℕ, ◌≡◌, ap, ◌∙◌, inl, inr, true, false, List, [], ◌∷◌, arith, ltb, ◌==◌, ==_iff, Bool-cases, All,
  Any,
}
use astraea.Prelude.Sorting.{sort, sort-Any, unique, unique_from, Sorted, sort-Sorted}
use astraea.Execution.MemoryPlan.Build.{PageSpan, boundaries, sorted_boundaries}

-- The span is one of the list.
abbrev pub OneOf : PageSpan → List PageSpan → Type 0
OneOf s ss = Any (λ t. t ≡ s) ss

-- Removing neighbours that are equal.
unique_from-All :
    (P : ℕ → Type 0) (x : ℕ) (xs : List ℕ) → P x → All P xs → All P (unique_from ◌==◌ x xs)
unfolding unique_from
unique_from-All P x [] p k = (p, tt)
unique_from-All P x (y ∷ ys) p (q, k) = elim (Bool-cases (x == y)) [
  | inl e ↦ rw e (unique_from-All P x ys p k)
  | inr e ↦ rw e (p, unique_from-All P y ys q k)
]

unique_from-Sorted :
    (x : ℕ) (xs : List ℕ) → Sorted ltb (x ∷ xs) → Sorted ltb (unique_from ◌==◌ x xs)
unfolding unique_from
unique_from-Sorted x [] h = h
unique_from-Sorted x (y ∷ ys) ((a, k), (l, h)) = elim (Bool-cases (x == y)) [
  | inl e ↦ rw e (unique_from-Sorted x ys (k, h))
  | inr e ↦ rw e (unique_from-All (λ z. ltb z x ≡ false) y ys a k, unique_from-Sorted y ys (l, h))
]

unique_from-Any :
    (a x : ℕ) (xs : List ℕ) → Any (λ c. c ≡ a) (x ∷ xs) → Any (λ c. c ≡ a) (unique_from ◌==◌ x xs)
unfolding unique_from
unique_from-Any a x [] h = h
unique_from-Any a x (y ∷ ys) (inl h) = elim (Bool-cases (x == y)) [
  | inl e ↦ rw e (unique_from-Any a x ys (inl h))
  | inr e ↦ rw e (inl h)
]
unique_from-Any a x (y ∷ ys) (inr h) = elim (Bool-cases (x == y)) [
  | inl e ↦
      rw e (unique_from-Any a x ys (elim h [ inl k ↦ inl ((==_iff x y).0 e ∙ k) | inr k ↦ inr k ]))
  | inr e ↦ rw e (inr (unique_from-Any a y ys h))
]

ltb_asym : (x y : ℕ) → ltb x y ≡ true → ltb y x ≡ false
ltb_asym x y h = ground arith

ltb_trans : (x y z : ℕ) → ltb y x ≡ false → ltb z y ≡ false → ltb z x ≡ false
ltb_trans x y z h k = ground arith

unique-Sorted : (xs : List ℕ) → Sorted ltb xs → Sorted ltb (unique ◌==◌ xs)
unfolding unique
unique-Sorted [] h = tt
unique-Sorted (x ∷ xs) h = unique_from-Sorted x xs h

unique-Any : (a : ℕ) (xs : List ℕ) → Any (λ c. c ≡ a) xs → Any (λ c. c ≡ a) (unique ◌==◌ xs)
unfolding unique
unique-Any a [] h = elim h [ ]
unique-Any a (x ∷ xs) h = unique_from-Any a x xs h

boundaries-Any :
    (s : PageSpan) (ss : List PageSpan) (max_page : ℕ)
    → OneOf s ss
    → Any (λ c. c ≡ s.first_page) (boundaries ss max_page)
unfolding boundaries
boundaries-Any s [] max_page o = elim o [ ]
boundaries-Any s (t ∷ ss) max_page (inl e) = elim (Bool-cases (ltb t.last_page max_page)) [
  | inl l ↦ rw l (inl (ap (λ u. u.first_page) e))
  | inr l ↦ rw l (inl (ap (λ u. u.first_page) e))
]
boundaries-Any s (t ∷ ss) max_page (inr o) = elim (Bool-cases (ltb t.last_page max_page)) [
  | inl l ↦ rw l (inr (inr (boundaries-Any s ss max_page o)))
  | inr l ↦ rw l (inr (boundaries-Any s ss max_page o))
]

pub boundaries-Sorted :
    (ss : List PageSpan) (max_page : ℕ) → Sorted ltb (sort ltb (boundaries ss max_page))
boundaries-Sorted ss max_page = sort-Sorted ltb ltb_asym ltb_trans (boundaries ss max_page)

pub sorted_boundaries-Sorted :
    (ss : List PageSpan) (max_page : ℕ) → Sorted ltb (sorted_boundaries ss max_page)
unfolding sorted_boundaries
sorted_boundaries-Sorted ss max_page =
    unique-Sorted (sort ltb (boundaries ss max_page))
      (sort-Sorted ltb ltb_asym ltb_trans (boundaries ss max_page))

pub sorted_boundaries-Any :
    (s : PageSpan) (ss : List PageSpan) (max_page : ℕ)
    → OneOf s ss
    → Any (λ c. c ≡ s.first_page) (sorted_boundaries ss max_page)
unfolding sorted_boundaries
sorted_boundaries-Any s ss max_page o =
    unique-Any s.first_page (sort ltb (boundaries ss max_page)) (
      sort-Any ltb (λ c. c ≡ s.first_page) (boundaries ss max_page)
        (boundaries-Any s ss max_page o))
