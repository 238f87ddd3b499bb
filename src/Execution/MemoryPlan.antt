-- ===== src/Execution/MemoryPlan.antt =====
-- include/astraea/execution/memory_plan.hpp and src/execution/memory_plan.cpp: the host pages that
-- a guest image needs, with the permissions that they are given.
pub mod Writes
pub mod Build
pub mod Boundaries
pub mod Spans
pub mod Regions
pub mod Cover
pub mod Order
use astraea.Memory.Address.{GuestRange, is_empty}
use astraea.Memory.Permissions.{GuestPermissions, write, execute, has}
use astraea.Memory.Mapping.{MappingIntent}
use astraea.Prelude.{
  ℕ, ◌+◌, ◌-◌, Bool, false, not, ◌&&◌, ◌||◌, Option, none, some, List, [], ◌∷◌, ltb, leb, ◌==◌,
  if◌then◌else◌, u64_max,
}

pub data ExecutionMemorySourceKind : Type 0 where
  mapping initial_stack : ExecutionMemorySourceKind

pub record ExecutionMemorySource : Type 0 where
  pub kind : ExecutionMemorySourceKind
  pub source_index : ℕ

pub record ExecutionMemoryRegion : Type 0 where
  pub range : GuestRange
  pub permissions : GuestPermissions
  pub sources : List ExecutionMemorySource

pub record ExecutionMemoryPlan : Type 0 where
  pub host_page_size : ℕ
  pub regions : List ExecutionMemoryRegion

-- The two lambdas of guest_write_owned_by_plan, over the range [address, address + byte_count).
unfoldable pub fully_within : ℕ → ℕ → GuestRange → Bool
fully_within address byte_count r =
    leb r.base address
    && (leb (address - r.base) r.size && leb byte_count (r.size - (address - r.base)))

unfoldable pub intersects : ℕ → ℕ → GuestRange → Bool
intersects address last r =
    if is_empty r
    then false
    else if leb r.base address
    then ltb (address - r.base) r.size
    else ltb r.base last

-- The loop over the mappings: `none` is the early `return false`.
unfoldable pub owned_by_mappings : ℕ → ℕ → List MappingIntent → Bool → Option Bool
owned_by_mappings address byte_count [] owned = some owned
owned_by_mappings address byte_count (m ∷ ms) owned =
    let rest =
      owned_by_mappings address byte_count ms
        (fully_within address byte_count m.range && has m.permissions write || owned) in
    if intersects address (address + byte_count) m.range && not (has m.permissions write)
    then none
    else rest

-- The loop over the regions: the first one that holds the whole write decides.
unfoldable pub backed_by_regions : ℕ → ℕ → List ExecutionMemoryRegion → Bool
backed_by_regions address byte_count [] = false
backed_by_regions address byte_count (r ∷ rs) =
    let rest = backed_by_regions address byte_count rs in
    if not (fully_within address byte_count r.range)
    then rest
    else has r.permissions write && not (has r.permissions execute)

unfoldable pub guest_write_owned_by_plan :
    ExecutionMemoryPlan → List MappingIntent → GuestRange → ℕ → ℕ → Bool
guest_write_owned_by_plan plan guest_mappings guest_stack address byte_count =
    if byte_count == 0 || plan.host_page_size == 0
    then false
    else if ltb (u64_max - address) byte_count
    then false
    else (elim (owned_by_mappings address byte_count guest_mappings
        (fully_within address byte_count guest_stack)) [
          | none ↦ false
          | some owned ↦
              if not owned then false else backed_by_regions address byte_count plan.regions
        ])
