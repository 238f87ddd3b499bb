-- ===== src/Execution/MemoryPlan/Cover.antt =====
-- The regions of build_execution_memory_plan hold the pages of the spans, and none is both writable
-- and executable.
use astraea.Prelude.{
  ltb→le, ℕ, ◌+◌, ◌-◌, ◌*◌, ◌/◌, ◌≤◌, ◌<◌, ◌≡◌, refl, ◌∙◌, ◌⊎◌, inl, inr, true, false, ◌&&◌, List,
  [], ◌∷◌, arith, ltb, ◌==◌, u64_max, ltb→lt, ==_iff, Bool-cases, length, All, Any, Result, success,
  fail_if, >>=-eq-success,
}
use astraea.Prelude.Sorting.{Sorted}
use astraea.Memory.Permissions.{GuestPermission, GuestPermissions, write, execute, has, IsKnown}
use astraea.Execution.MemoryPlan.{ExecutionMemoryRegion}
use astraea.Execution.MemoryPlan.Boundaries.{OneOf, sorted_boundaries-Sorted, sorted_boundaries-Any}
use astraea.Execution.MemoryPlan.Build.{
  regions_of, ExecutionPlanError, PageSpan, span_covers, bits_at, sources_at, region_of,
  build_regions, last_page_of, sorted_boundaries,
}
use astraea.Execution.MemoryPlan.Regions.{
  permissions_of, bits_at-has, sources_at-some, region_of_lem,
}

-- The region holds the page, with the permission.
abbrev pub HoldsPage : ℕ → ℕ → GuestPermission → ExecutionMemoryRegion → Type 0
HoldsPage page_size page q r =
    (r.range.base ≤ page * page_size)
    × ((page + 1) * page_size ≤ r.range.base + r.range.size)
    × (has r.permissions q ≡ true)

has_bits :
    (q : GuestPermission) (p : GuestPermissions) (bits : ℕ)
    → p.bits ≡ bits
    → has p q ≡ has (record { bits = bits }) q
unfolding has
has_bits q p bits e = rw e refl

-- One round of the loop, when the whole succeeds.
pub build_step :
    (ss : List PageSpan) (page_size max_page b : ℕ) (bs : List ℕ) (rs : List ExecutionMemoryRegion)
    → build_regions ss page_size max_page (b ∷ bs) ≡ success rs
    → (more : List ExecutionMemoryRegion) × (build_regions ss page_size max_page bs ≡ success more)
      × (((length (sources_at ss b) ≡ 0) × (rs ≡ more))
          ⊎ ((r : ExecutionMemoryRegion) × (region_of page_size b
                  (last_page_of max_page bs)
                  (bits_at ss b 0)
                  (sources_at ss b)
                ≡ success r)
              × (rs ≡ r ∷ more)))
unfolding build_regions
build_step ss page_size max_page b bs rs h = elim (Bool-cases (length (sources_at ss b) == 0)) [
  | inl e ↦ (rs, rw e at h, inl ((==_iff (length (sources_at ss b)) 0).0 e, refl))
  | inr e ↦
      let (r, made, k) =
        >>=-eq-success
          (region_of page_size b (last_page_of max_page bs) (bits_at ss b 0) (sources_at ss b)) _
          (rw e at h) in
      let (more, rest, same) = >>=-eq-success (build_regions ss page_size max_page bs) _ k in
      (more, rest, inr (r, made, ground arith))
]

pub times_mono : (b page n : ℕ) → b ≤ page → b * n ≤ page * n
times_mono b page n h = grind arith

pub times_add : (b c n : ℕ) → (b + c) * n ≡ b * n + c * n
times_add b c n = grind arith

times_end :
    (b last page n : ℕ) → b ≤ page → page ≤ last → (page + 1) * n ≤ b * n + (last - b + 1) * n
times_end b last page n h k = omega (
  arith,
  times_mono (page + 1) (b + (last - b + 1)) n (omega arith),
  times_add b (last - b + 1) n,
)

-- Boundaries above `page` are not the first page of a span that starts at or below it.
not_above :
    (first page : ℕ) (cs : List ℕ)
    → first ≤ page
    → All (λ c. page < c) cs
    → ¬ Any (λ c. c ≡ first) cs
not_above first page [] low k h = h
not_above first page (c ∷ cs) low (a, k) (inl e) = omega (arith, a, e)
not_above first page (c ∷ cs) low (a, k) (inr h) = not_above first page cs low k h

later_above :
    (page c : ℕ) (cs : List ℕ) → page < c → All (λ d. ltb d c ≡ false) cs → All (λ d. page < d) cs
later_above page c [] low k = tt
later_above page c (d ∷ ds) low (a, k) = (omega (arith, ltb→le d c a), later_above page c ds low k)

module _ (ss : List PageSpan) (page_size max_page page : ℕ) (q : GuestPermission) (s : PageSpan)
    (known : All (λ t. IsKnown (permissions_of t)) ss) (among : OneOf s ss)
    (allowed : has (permissions_of s) q ≡ true) (after : s.first_page ≤ page)
    (before : page ≤ s.last_page) where
  -- The round that makes the region of the page.
  here :
      (b : ℕ) (bs : List ℕ) (rs : List ExecutionMemoryRegion)
      → s.first_page ≤ b
      → b ≤ page
      → page ≤ last_page_of max_page bs
      → build_regions ss page_size max_page (b ∷ bs) ≡ success rs
      → Any (HoldsPage page_size page q) rs
  unfolding span_covers
  here b bs rs first low high h =
      let covers : span_covers s b ≡ true = ground arith in
      let (more, rest, made) = build_step ss page_size max_page b bs rs h in
      elim made [
        | inl (none_there, e) ↦ absurd (sources_at-some s ss b among covers none_there)
        | inr (r, e, same) ↦
            let (base, size, bits, apart) =
              region_of_lem page_size b (last_page_of max_page bs) (bits_at ss b 0)
                (sources_at ss b) r e in
            rw same (
              inl (
                rw base (times_mono b page page_size low),
                rw (base, size) (times_end b (last_page_of max_page bs) page page_size low high),
                has_bits q r.permissions (bits_at ss b 0) bits
                    ∙ bits_at-has q s ss b 0 known (omega arith) among covers allowed,
              ))
      ]

  -- Some boundary is the last one that is not above the page.
  covered :
      (b : ℕ) (bs : List ℕ) (rs : List ExecutionMemoryRegion)
      → Sorted ltb (b ∷ bs)
      → ((s.first_page ≤ b) ⊎ Any (λ c. c ≡ s.first_page) bs)
      → b ≤ page
      → page ≤ max_page
      → build_regions ss page_size max_page (b ∷ bs) ≡ success rs
      → Any (HoldsPage page_size page q) rs
  covered b [] rs sorted (inl first) low high h = here b [] rs first low high h
  covered b [] rs sorted (inr seen) low high h = elim seen [ ]
  covered b (c ∷ cs) rs sorted seen low high h = elim (Bool-cases (ltb page c)) [
    | inl above ↦
        here b (c ∷ cs) rs
          (elim seen [
            | inl first ↦ first
            | inr one ↦ absurd (
                not_above s.first_page page (c ∷ cs) after
                  (ltb→lt page c above, later_above page c cs (ltb→lt page c above) sorted.1.0) one)
          ])
          low (omega (arith, ltb→lt page c above)) h
    | inr reached ↦
        let (more, rest, made) = build_step ss page_size max_page b (c ∷ cs) rs h in
        let found =
          covered c cs more sorted.1
            (elim seen [
              | inl first ↦ inl (omega (arith, first, ltb→le c b sorted.0.0))
              | inr (inl e) ↦ inl (omega (arith, e))
              | inr (inr one) ↦ inr one
            ])
            (ltb→le page c reached) high rest in
        elim made [
          | inl (none_there, same) ↦ rw same found
          | inr (r, e, same) ↦ rw same (inr found)
        ]
  ]

  -- The regions of the spans hold every page of a span, with its permissions.
  from_boundaries :
      (bs : List ℕ) (rs : List ExecutionMemoryRegion)
      → Sorted ltb bs
      → Any (λ c. c ≡ s.first_page) bs
      → page ≤ max_page
      → build_regions ss page_size max_page bs ≡ success rs
      → Any (HoldsPage page_size page q) rs
  from_boundaries [] rs sorted seen high h = elim seen [ ]
  from_boundaries (b ∷ bs) rs sorted (inl e) high h =
      covered b bs rs sorted (inl (omega (arith, e))) (omega (arith, e, after)) high h
  from_boundaries (b ∷ bs) rs sorted (inr one) high h =
      covered b bs rs sorted (inr one) (head_below bs sorted.0 one) high h
    where
      head_below :
          (cs : List ℕ) → All (λ c. ltb c b ≡ false) cs → Any (λ c. c ≡ s.first_page) cs → b ≤ page
      head_below [] k o = elim o [ ]
      head_below (c ∷ cs) (a, k) (inl e) = omega (arith, e, after, ltb→le c b a)
      head_below (c ∷ cs) (a, k) (inr o) = head_below cs k o

pub regions_of-HoldsPage :
    (ss : List PageSpan) (page_size page : ℕ) (q : GuestPermission) (s : PageSpan)
    (rs : List ExecutionMemoryRegion)
    → All (λ t. IsKnown (permissions_of t)) ss
    → OneOf s ss
    → has (permissions_of s) q ≡ true
    → s.first_page ≤ page
    → page ≤ s.last_page
    → page ≤ u64_max / page_size
    → regions_of ss page_size ≡ success rs
    → Any (HoldsPage page_size page q) rs
unfolding regions_of
regions_of-HoldsPage ss page_size page q s rs known among allowed after before high h =
    let (u, few, k) = >>=-eq-success (fail_if (ltb (u64_max / 2) (length ss)) _) _ h in
    from_boundaries ss page_size (u64_max / page_size) page q s known among allowed after before
      (sorted_boundaries ss (u64_max / page_size)) rs
      (sorted_boundaries-Sorted ss (u64_max / page_size))
      (sorted_boundaries-Any s ss (u64_max / page_size) among) high k

-- The region is not both writable and executable.
abbrev pub Exclusive : ExecutionMemoryRegion → Type 0
Exclusive r = (has r.permissions write && has r.permissions execute) ≡ false

build_regions-Exclusive :
    (ss : List PageSpan) (page_size max_page : ℕ) (bs : List ℕ) (rs : List ExecutionMemoryRegion)
    → build_regions ss page_size max_page bs ≡ success rs
    → All Exclusive rs
build_regions-Exclusive ss page_size max_page [] rs h = nothing_made rs (unfold build_regions in h)
  where
    nothing_made :
        (rs : List ExecutionMemoryRegion)
        → ◌≡◌ {A = Result (List ExecutionMemoryRegion) ExecutionPlanError} (success []) (success rs)
        → All Exclusive rs
    nothing_made [] e = tt
    nothing_made (r ∷ rs) e = ground arith
build_regions-Exclusive ss page_size max_page (b ∷ bs) rs h =
    let (more, rest, made) = build_step ss page_size max_page b bs rs h in
    let later = build_regions-Exclusive ss page_size max_page bs more rest in
    elim made [
      | inl (none_there, same) ↦ rw same later
      | inr (r, e, same) ↦
          let (base, size, bits, apart) =
            region_of_lem page_size b (last_page_of max_page bs) (bits_at ss b 0) (sources_at ss b)
              r e in
          rw same (apart, later)
    ]

pub regions_of-Exclusive :
    (ss : List PageSpan) (page_size : ℕ) (rs : List ExecutionMemoryRegion)
    → regions_of ss page_size ≡ success rs
    → All Exclusive rs
unfolding regions_of
regions_of-Exclusive ss page_size rs h =
    let (u, few, k) = >>=-eq-success (fail_if (ltb (u64_max / 2) (length ss)) _) _ h in
    build_regions-Exclusive ss page_size (u64_max / page_size)
      (sorted_boundaries ss (u64_max / page_size)) rs k
