-- ===== src/Execution/GuestMemory.antt =====
-- include/astraea/execution/guest_memory.hpp and src/execution/guest_memory.cpp: checked access to
-- the guest's memory. The process memory behind the raw pointers is a function from addresses to
-- bytes.
pub mod Scan
pub mod Coverage
pub mod Validate
pub mod Access
use astraea.Memory.Address.{GuestRange, contains}
use astraea.Memory.Permissions.{GuestPermissions, GuestPermission, has}
use astraea.Memory.Mapping.{MappingIntent}
use astraea.Execution.MemoryPlan.{ExecutionMemoryPlan, ExecutionMemoryRegion}
use astraea.Prelude.{
  ℕ, zero, suc, ◌+◌, ◌-◌, min, max, Bool, true, false, not, ◌&&◌, Option, none, some, List, [], ◌∷◌,
  ltb, ◌==◌, if◌then◌else◌, u64_max, Result, success, failure, ◌>>=◌,
}

pub data GuestMemoryErrorCode : Type 0 where
  prepared_memory_unavailable guest_memory_unmapped guest_memory_permission_denied :
      GuestMemoryErrorCode
  guest_memory_range_overflow host_size_unrepresentable unterminated_string : GuestMemoryErrorCode
  host_allocation_failure : GuestMemoryErrorCode

-- `has_guest_address` with `guest_address`.
pub record GuestMemoryError : Type 0 where
  pub code : GuestMemoryErrorCode
  pub has_guest_address : Bool
  pub guest_address : ℕ

abbrev pub memory_error : GuestMemoryErrorCode → GuestMemoryError
memory_error code = record { code = code; has_guest_address = false; guest_address = 0 }

abbrev pub memory_error_at : GuestMemoryErrorCode → ℕ → GuestMemoryError
memory_error_at code address = record {
  code = code;
  has_guest_address = true;
  guest_address = address;
}

-- What the access object reads of a `GuestImage`: its mappings and its initial stack's storage.
pub record GuestImage : Type 0 where
  pub mappings : List MappingIntent
  pub stack_storage : GuestRange

-- `none` is a null pointer.
pub record GuestMemoryAccess : Type 0 where
  pub image : Option GuestImage
  pub prepared_plan : Option ExecutionMemoryPlan
  pub prepared_epoch : Option ℕ
  pub prepared_memory_available : Bool

-- The loops of `validate` over mappings and over regions: the longest stretch from the cursor on
-- that one entry with the permission covers, and whether an entry without it holds the cursor.
module _ {A : Type 0} (range : A → GuestRange) (permissions : A → GuestPermissions) where
  unfoldable pub scan : List A → ℕ → GuestPermission → ℕ → Bool → ℕ × Bool
  scan [] cursor p best denied = (best, denied)
  scan (x ∷ xs) cursor p best denied =
      let inside = contains (range x) cursor in
      let allowed = has (permissions x) p in
      let available = (range x).size - (cursor - (range x).base) in
      scan xs cursor p (if inside && allowed then max best available else best)
        (if inside && not allowed then true else denied)

abbrev pub scan_mappings : List MappingIntent → ℕ → GuestPermission → ℕ × Bool
scan_mappings ms cursor p = scan (λ m. m.range) (λ m. m.permissions) ms cursor p 0 false

abbrev pub scan_regions : List ExecutionMemoryRegion → ℕ → GuestPermission → ℕ × Bool
scan_regions rs cursor p = scan (λ r. r.range) (λ r. r.permissions) rs cursor p 0 false

-- The stack has no permissions to look at.
abbrev pub stack_coverage : GuestRange → ℕ → ℕ → ℕ
stack_coverage stack cursor best =
    if contains stack cursor then max best (stack.size - (cursor - stack.base)) else best

-- The coverage of the guest's own ranges at the cursor, or the error; then that of the prepared
-- pages.
unfoldable pub guest_coverage : GuestImage → ℕ → GuestPermission → Result ℕ GuestMemoryError
guest_coverage image cursor p =
    let (best, denied) = scan_mappings image.mappings cursor p in
    let coverage = stack_coverage image.stack_storage cursor best in
    if coverage == 0
    then failure (
        memory_error_at (if denied then guest_memory_permission_denied else guest_memory_unmapped)
          cursor)
    else success coverage

unfoldable pub prepared_coverage :
    ExecutionMemoryPlan → ℕ → GuestPermission → Result ℕ GuestMemoryError
prepared_coverage plan cursor p =
    let (coverage, denied) = scan_regions plan.regions cursor p in
    if coverage == 0
    then failure (
        memory_error_at
          (if denied then guest_memory_permission_denied else prepared_memory_unavailable) cursor)
    else success coverage

unfoldable pub chunk_at :
    GuestImage → ExecutionMemoryPlan → ℕ → GuestPermission → Result ℕ GuestMemoryError
chunk_at image plan cursor p = do
  best ← guest_coverage image cursor p
  prepared ← prepared_coverage plan cursor p
  success (min best prepared)

-- The `while` loop. Each round takes a byte at least, so `remaining` rounds are enough; `none`
-- means that they were not.
unfoldable pub validate_loop :
    GuestImage
    → ExecutionMemoryPlan
    → GuestPermission
    → ℕ
    → ℕ
    → ℕ
    → Option (Result (Unit {0}) GuestMemoryError)
validate_loop image plan p zero cursor remaining =
    if remaining == 0 then some (success tt) else none
validate_loop image plan p (suc fuel) cursor remaining = elim (remaining == 0) [
  | true ↦ some (success tt)
  | false ↦ elim (chunk_at image plan cursor p) [
    | failure e ↦ some (failure e)
    | success coverage ↦
        let chunk = min remaining coverage in
        let next = validate_loop image plan p fuel (cursor + chunk) (remaining - chunk) in
        if remaining - chunk == 0
        then some (success tt)
        else if ltb (u64_max - chunk) cursor
        then some (failure (memory_error_at guest_memory_range_overflow cursor))
        else next
  ]
]

-- validate on an available image and plan. The two `if constexpr` blocks are not compiled where
-- `std::size_t` and `std::uintptr_t` have 64 bits.
unfoldable pub validate_available :
    GuestImage → ExecutionMemoryPlan → ℕ → ℕ → GuestPermission → Option (Result ℕ GuestMemoryError)
validate_available image plan address byte_count p =
    let loop = validate_loop image plan p byte_count address byte_count in
    if byte_count == 0
    then some (success 0)
    else if ltb (u64_max - (byte_count - 1)) address
    then some (failure (memory_error_at guest_memory_range_overflow address))
    else (elim loop [
      | none ↦ none
      | some (failure e) ↦ some (failure e)
      | some (success u) ↦ some (success byte_count)
    ])

unfoldable pub validate :
    GuestMemoryAccess → ℕ → ℕ → GuestPermission → Option (Result ℕ GuestMemoryError)
validate g address byte_count p = elim g.image [
  | none ↦ some (failure (memory_error prepared_memory_unavailable))
  | some image ↦ elim g.prepared_plan [
    | none ↦ some (failure (memory_error prepared_memory_unavailable))
    | some plan ↦
        if not g.prepared_memory_available
        then some (failure (memory_error prepared_memory_unavailable))
        else validate_available image plan address byte_count p
  ]
]
