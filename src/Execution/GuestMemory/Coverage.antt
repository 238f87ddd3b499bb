-- ===== src/Execution/GuestMemory/Coverage.antt =====
-- One round of GuestMemoryAccess::validate: how far the ranges at the cursor reach.
use astraea.Memory.Address.{GuestRange, contains}
use astraea.Memory.Address.Ranges.{contains_iff}
use astraea.Memory.Permissions.{GuestPermission}
use astraea.Memory.Mapping.{MappingIntent}
use astraea.Execution.MemoryPlan.{ExecutionMemoryPlan, ExecutionMemoryRegion}
use astraea.Execution.GuestMemory.{
  scan_regions, scan_mappings, GuestImage, GuestMemoryError, memory_error_at, guest_coverage,
  prepared_coverage, chunk_at, stack_coverage, guest_memory_permission_denied,
  guest_memory_unmapped, prepared_memory_unavailable,
}
use astraea.Prelude.{
  ℕ, ◌+◌, ◌<◌, min, ◌≡◌, ◌⊎◌, inl, inr, Bool, true, false, not, ◌||◌, Option, none, some, arith,
  if◌then◌else◌, Bool-cases, success, failure,
}
use astraea.Execution.GuestMemory.Scan.{holds, allows, scan_reach, scan_allowed, scan_refused}

-- The guest owns the byte with the permission: a mapping has it, or it lies in the stack.
abbrev pub guest_allows : GuestImage → GuestPermission → ℕ → Bool
guest_allows image p a =
    allows (λ m. m.range) (λ m. m.permissions) p image.mappings a || contains image.stack_storage a

abbrev pub guest_holds : GuestImage → ℕ → Bool
guest_holds image a = holds (λ m. m.range) (λ m. m.permissions) image.mappings a

-- A prepared page has the byte with the permission.
abbrev pub prepared_allows : ExecutionMemoryPlan → GuestPermission → ℕ → Bool
prepared_allows plan p a = allows (λ r. r.range) (λ r. r.permissions) p plan.regions a

abbrev pub prepared_holds : ExecutionMemoryPlan → ℕ → Bool
prepared_holds plan a = holds (λ r. r.range) (λ r. r.permissions) plan.regions a

-- What is wrong with an access to a single byte.
unfoldable pub byte_error :
    GuestImage → ExecutionMemoryPlan → GuestPermission → ℕ → Option GuestMemoryError
byte_error image plan p a =
    if not (guest_allows image p a)
    then some (
        memory_error_at
          (if guest_holds image a then guest_memory_permission_denied else guest_memory_unmapped) a)
    else if not (prepared_allows plan p a)
    then some (
        memory_error_at
          (if prepared_holds plan a
            then guest_memory_permission_denied
            else prepared_memory_unavailable)
          a)
    else none

-- The stack joins the mappings.
stack_reach :
    (stack : GuestRange) (a best j : ℕ)
    → j < stack_coverage stack a best
    → (j < best) ⊎ (contains stack (a + j) ≡ true)
stack_reach stack a best j h = ground (arith, contains_iff stack a, contains_iff stack (a + j))

module _ (image : GuestImage) (p : GuestPermission) (a : ℕ) where
  guest_coverage_none :
      guest_allows image p a ≡ false
      → guest_coverage image a p
        ≡ failure (
            memory_error_at
              (if guest_holds image a
                then guest_memory_permission_denied
                else guest_memory_unmapped)
              a)
  unfolding guest_coverage
  guest_coverage_none h =
      ground (
        arith,
        scan_refused (λ (m : MappingIntent). m.range) (λ m. m.permissions) image.mappings a p,
      )

  guest_coverage_some :
      guest_allows image p a ≡ true
      → guest_coverage image a p
        ≡ success (stack_coverage image.stack_storage a (scan_mappings image.mappings a p).0)
  unfolding guest_coverage
  guest_coverage_some h = ground (
    arith,
    contains_iff image.stack_storage a,
    scan_allowed (λ (m : MappingIntent). m.range) (λ m. m.permissions) image.mappings a p,
  )

  guest_reach :
      (j : ℕ)
      → j < stack_coverage image.stack_storage a (scan_mappings image.mappings a p).0
      → guest_allows image p (a + j) ≡ true
  guest_reach j h = ground (
    arith,
    stack_reach image.stack_storage a (scan_mappings image.mappings a p).0 j h,
    scan_reach (λ (m : MappingIntent). m.range) (λ m. m.permissions) image.mappings a p j,
  )

  pub guest_coverage_lem :
      guest_allows image p a ≡ true
      → (c : ℕ) × (guest_coverage image a p ≡ success c)
        × (0 < c)
        × ((j : ℕ) → j < c → guest_allows image p (a + j) ≡ true)
  guest_coverage_lem h = (
    _,
    guest_coverage_some h,
    ground (
      arith,
      contains_iff image.stack_storage a,
      scan_allowed (λ (m : MappingIntent). m.range) (λ m. m.permissions) image.mappings a p,
    ),
    guest_reach,
  )

module _ (plan : ExecutionMemoryPlan) (p : GuestPermission) (a : ℕ) where
  prepared_coverage_none :
      prepared_allows plan p a ≡ false
      → prepared_coverage plan a p
        ≡ failure (
            memory_error_at
              (if prepared_holds plan a
                then guest_memory_permission_denied
                else prepared_memory_unavailable)
              a)
  unfolding prepared_coverage
  prepared_coverage_none h = ground (
    arith,
    scan_refused (λ (r : ExecutionMemoryRegion). r.range) (λ r. r.permissions) plan.regions a p,
  )

  prepared_coverage_lem :
      prepared_allows plan p a ≡ true
      → (c : ℕ) × (prepared_coverage plan a p ≡ success c)
        × (0 < c)
        × ((j : ℕ) → j < c → prepared_allows plan p (a + j) ≡ true)
  unfolding prepared_coverage
  prepared_coverage_lem h =
      let positive =
        scan_allowed (λ (r : ExecutionMemoryRegion). r.range) (λ r. r.permissions) plan.regions a p
          h in
      (
        (scan_regions plan.regions a p).0,
        ground (arith, positive),
        positive,
        scan_reach (λ (r : ExecutionMemoryRegion). r.range) (λ r. r.permissions) plan.regions a p,
      )

module _ (image : GuestImage) (plan : ExecutionMemoryPlan) (p : GuestPermission) where
  pub allowed_of_none :
      (b : ℕ)
      → byte_error image plan p b ≡ none
      → (guest_allows image p b ≡ true) × (prepared_allows plan p b ≡ true)
  unfolding byte_error
  allowed_of_none b h = ground arith

  pub none_of_allowed :
      (b : ℕ)
      → guest_allows image p b ≡ true
      → prepared_allows plan p b ≡ true
      → byte_error image plan p b ≡ none
  unfolding byte_error
  none_of_allowed b g k = rw g (rw k)

module _ (image : GuestImage) (plan : ExecutionMemoryPlan) (p : GuestPermission) (a : ℕ) where
  -- The round fails where the byte at the cursor may not be accessed, with that byte's error.
  pub chunk_at_fails :
      (e : GuestMemoryError)
      → byte_error image plan p a ≡ some e
      → chunk_at image plan a p ≡ failure e
  unfolding chunk_at byte_error
  chunk_at_fails e h = elim (Bool-cases (guest_allows image p a)) [
    | inl g ↦
        (let (c, q, pos, reach) = guest_coverage_lem image p a g in
          elim (Bool-cases (prepared_allows plan p a)) [
            | inl k ↦ ground arith
            | inr k ↦ ground (arith, prepared_coverage_none plan p a k, q)
          ])
    | inr g ↦ ground (arith, guest_coverage_none image p a g)
  ]

  -- Otherwise it passes over a stretch of bytes that may all be accessed.
  pub chunk_at_covers :
      byte_error image plan p a ≡ none
      → (c : ℕ) × (chunk_at image plan a p ≡ success c)
        × (0 < c)
        × ((j : ℕ) → j < c → byte_error image plan p (a + j) ≡ none)
  unfolding chunk_at byte_error
  chunk_at_covers h =
      let (g, k) = allowed_of_none image plan p a h in
      let (c, q, pos, reach) = guest_coverage_lem image p a g in
      let (d, q', pos', reach') = prepared_coverage_lem plan p a k in
      (
        min c d,
        rw q (rw q'),
        omega arith,
        λ j lt.
            none_of_allowed image plan p (a + j) (reach j (omega arith)) (reach' j (omega arith)),
      )
