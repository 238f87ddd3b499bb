-- ===== src/Execution/MemoryPlan/Order.antt =====
-- The regions of build_execution_memory_plan follow each other and share no address.
use astraea.Prelude.{
  ==→ne, ltb→le, ℕ, suc, ◌+◌, ◌-◌, ◌*◌, ◌/◌, ◌≤◌, ◌<◌, ◌≡◌, sym, ap, ◌∙◌, inl, inr, List, [], ◌∷◌,
  arith, ltb, ◌==◌, u64_max, Bool-cases, length, Result, success, fail_if, >>=-eq-success,
}
use astraea.Prelude.Sorting.{sort, unique, unique_from, Sorted}
use astraea.Execution.MemoryPlan.{ExecutionMemoryRegion}
use astraea.Execution.MemoryPlan.Build.{
  ExecutionPlanError, PageSpan, bits_at, sources_at, build_regions, last_page_of, boundaries,
  sorted_boundaries, regions_of,
}
use astraea.Execution.MemoryPlan.Boundaries.{boundaries-Sorted}
use astraea.Execution.MemoryPlan.Regions.{region_of_lem}
use astraea.Execution.MemoryPlan.Cover.{build_step, times_mono, times_add}

-- The numbers rise, from `low` on.
Rising : ℕ → List ℕ → Type 0
Rising low [] = Unit
Rising low (x ∷ xs) = (low ≤ x) × Rising (suc x) xs

-- The regions follow each other, from the address `low` on.
abbrev pub Placed : ℕ → List ExecutionMemoryRegion → Type 0
Placed low [] = Unit
Placed low (r ∷ rs) = (low ≤ r.range.base) × Placed (r.range.base + r.range.size) rs

Placed-mono :
    (low high : ℕ) (rs : List ExecutionMemoryRegion) → low ≤ high → Placed high rs → Placed low rs
Placed-mono low high [] h p = tt
Placed-mono low high (r ∷ rs) h (a, p) = (omega (arith, a, h), p)

unique_from-Rising :
    (low x : ℕ) (xs : List ℕ) → Sorted ltb (x ∷ xs) → low ≤ x → Rising low (unique_from ◌==◌ x xs)
unfolding unique_from Rising
unique_from-Rising low x [] s h = (h, tt)
unique_from-Rising low x (y ∷ ys) ((a, k), (l, s)) h = elim (Bool-cases (x == y)) [
  | inl e ↦ rw e (unique_from-Rising low x ys (k, s) h)
  | inr e ↦
      rw e (h, unique_from-Rising (suc x) y ys (l, s) (omega (arith, ltb→le y x a, ==→ne x y e)))
]

unique-Rising : (xs : List ℕ) → Sorted ltb xs → Rising 0 (unique ◌==◌ xs)
unfolding unique Rising
unique-Rising [] s = tt
unique-Rising (x ∷ xs) s = unique_from-Rising 0 x xs s (omega arith)

sorted_boundaries-Rising :
    (ss : List PageSpan) (max_page : ℕ) → Rising 0 (sorted_boundaries ss max_page)
unfolding sorted_boundaries
sorted_boundaries-Rising ss max_page =
    unique-Rising (sort ltb (boundaries ss max_page)) (boundaries-Sorted ss max_page)

times_next : (b c n : ℕ) → b < c → b * n + (c - 1 - b + 1) * n ≡ c * n
times_next b c n h = sym (times_add b (c - 1 - b + 1) n) ∙ ap (λ k. k * n) same
  where
    same : b + (c - 1 - b + 1) ≡ c
    same = omega (arith, h)

Placed-empty :
    (low : ℕ) (rs : List ExecutionMemoryRegion)
    → ◌≡◌ {A = Result (List ExecutionMemoryRegion) ExecutionPlanError} (success []) (success rs)
    → Placed low rs
Placed-empty low [] e = tt
Placed-empty low (r ∷ rs) e = ground arith

build_regions-Placed :
    (ss : List PageSpan) (page_size max_page low : ℕ) (bs : List ℕ)
    (rs : List ExecutionMemoryRegion)
    → Rising low bs
    → build_regions ss page_size max_page bs ≡ success rs
    → Placed (low * page_size) rs
unfolding Rising
build_regions-Placed ss page_size max_page low [] rs rising h =
    Placed-empty (low * page_size) rs (unfold build_regions in h)
build_regions-Placed ss page_size max_page low (b ∷ []) rs (above, rising) h =
    let (more, rest, made) = build_step ss page_size max_page b [] rs h in
    elim made [
      | inl (none_there, same) ↦
          rw same (Placed-empty (low * page_size) more (unfold build_regions in rest))
      | inr (r, e, same) ↦
          let (base, size, bits, apart) =
            region_of_lem page_size b (last_page_of max_page []) (bits_at ss b 0) (sources_at ss b)
              r e in
          rw same (
            rw base (times_mono low b page_size above),
            Placed-empty (r.range.base + r.range.size) more (unfold build_regions in rest),
          )
    ]
build_regions-Placed ss page_size max_page low (b ∷ c ∷ cs) rs (above, (next, rising)) h =
    let (more, rest, made) = build_step ss page_size max_page b (c ∷ cs) rs h in
    let later =
      build_regions-Placed ss page_size max_page c (c ∷ cs) more (omega arith, rising) rest in
    elim made [
      | inl (none_there, same) ↦ rw same (
          Placed-mono (low * page_size) (c * page_size) more
            (times_mono low c page_size (omega (arith, above, next))) later)
      | inr (r, e, same) ↦
          let (base, size, bits, apart) =
            region_of_lem page_size b (c - 1) (bits_at ss b 0) (sources_at ss b) r e in
          rw same (
            rw base (times_mono low b page_size above),
            rw (base, size, times_next b c page_size next) later,
          )
    ]

pub regions_of-Placed :
    (ss : List PageSpan) (page_size : ℕ) (rs : List ExecutionMemoryRegion)
    → regions_of ss page_size ≡ success rs
    → Placed 0 rs
unfolding regions_of
regions_of-Placed ss page_size rs h =
    let (u, few, k) = >>=-eq-success (fail_if (ltb (u64_max / 2) (length ss)) _) _ h in
    Placed-mono 0 (0 * page_size) rs (omega arith) (
      build_regions-Placed ss page_size (u64_max / page_size) 0
        (sorted_boundaries ss (u64_max / page_size)) rs
        (sorted_boundaries-Rising ss (u64_max / page_size)) k)
