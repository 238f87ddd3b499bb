-- ===== src/Execution/MemoryPlan/Build.antt =====
-- build_execution_memory_plan and next_prepared_mapping_epoch of src/execution/memory_plan.cpp.
-- Running out of host memory is not modelled. A page index times the page size is at most 64 bits
-- wide.
use astraea.Prelude.{
  ℕ, ◌+◌, ◌-◌, ◌*◌, ◌/◌, bit_and, bit_or, Bool, not, ◌&&◌, ◌||◌, Option, none, some, List, [], ◌∷◌,
  ◌++◌, ltb, leb, ◌==◌, if◌then◌else◌, u64_max, length, any, Result, success, failure, ◌>>=◌, ◌>>◌,
  fail_if,
}
use astraea.Prelude.Sorting.{sort, unique}
use astraea.Memory.Address.{GuestRange, create, is_empty, contains}
use astraea.Memory.Permissions.{read, write, execute, to_bit, has, checked_from_bits}
use astraea.Memory.Mapping.{MappingIntent, or_error}
use astraea.Execution.MemoryPlan.{
  ExecutionMemorySourceKind, mapping, initial_stack, ExecutionMemorySource, ExecutionMemoryRegion,
  ExecutionMemoryPlan,
}

pub record ExecutionMemoryPlanRequest : Type 0 where
  pub mappings : List MappingIntent
  pub stack_storage : GuestRange
  pub entry_point : ℕ
  pub stack_pointer : ℕ
  pub host_page_size : ℕ

pub data ExecutionPlanErrorCode : Type 0 where
  invalid_host_page_size host_page_arithmetic_overflow : ExecutionPlanErrorCode
  mixed_write_execute_page entry_point_unmapped : ExecutionPlanErrorCode
  entry_point_not_executable stack_pointer_unmapped : ExecutionPlanErrorCode
  permission_construction_failure host_allocation_failure : ExecutionPlanErrorCode

pub record ExecutionPlanError : Type 0 where
  pub code : ExecutionPlanErrorCode
  pub guest_address : Option ℕ

abbrev pub plan_error : ExecutionPlanErrorCode → Option ℕ → ExecutionPlanError
plan_error code address = record { code = code; guest_address = address }

-- One call of next_prepared_mapping_epoch that no other thread interrupts: the answer, and the
-- counter.
unfoldable pub next_prepared_mapping_epoch : ℕ → ℕ × ℕ
next_prepared_mapping_epoch current =
    if current == 0 || current == u64_max then (0, current) else (current, current + 1)

pub record PageSpan : Type 0 where
  pub first_page : ℕ
  pub last_page : ℕ
  pub permission_bits : ℕ
  pub source : ExecutionMemorySource

unfoldable pub is_power_of_two : ℕ → Bool
is_power_of_two value = not (value == 0) && bit_and value (value - 1) == 0

unfoldable pub to_page_span :
    GuestRange → ℕ → ExecutionMemorySource → ℕ → Result PageSpan ExecutionPlanError
to_page_span range bits source page_size =
    let span : PageSpan = record {
      first_page = range.base / page_size;
      last_page = (range.base + (range.size - 1)) / page_size;
      permission_bits = bits;
      source = source;
    } in
    if is_empty range
    then failure (plan_error host_page_arithmetic_overflow (some range.base))
    else success span

unfoldable pub span_covers : PageSpan → ℕ → Bool
span_covers span page_index = leb span.first_page page_index && leb page_index span.last_page

abbrev pub source_kind_value : ExecutionMemorySourceKind → ℕ
source_kind_value mapping = 0
source_kind_value initial_stack = 1

abbrev pub same_source : ExecutionMemorySource → ExecutionMemorySource → Bool
same_source lhs rhs =
    source_kind_value lhs.kind == source_kind_value rhs.kind && lhs.source_index == rhs.source_index

unfoldable pub source_less : ExecutionMemorySource → ExecutionMemorySource → Bool
source_less lhs rhs =
    if not (source_kind_value lhs.kind == source_kind_value rhs.kind)
    then ltb (source_kind_value lhs.kind) (source_kind_value rhs.kind)
    else ltb lhs.source_index rhs.source_index

-- The loop over the mappings, and what follows for the stack.
unfoldable pub mapping_spans : List MappingIntent → ℕ → Result (List PageSpan) ExecutionPlanError
mapping_spans [] page_size = success []
mapping_spans (m ∷ ms) page_size =
    let rest = mapping_spans ms page_size in
    let source : ExecutionMemorySource = record { kind = mapping; source_index = m.source_index } in
    if is_empty m.range then rest else (do
      span ← to_page_span m.range m.permissions.bits source page_size
      spans ← rest
      success (span ∷ spans))

unfoldable pub stack_spans : GuestRange → ℕ → Result (List PageSpan) ExecutionPlanError
stack_spans stack page_size =
    let source : ExecutionMemorySource = record { kind = initial_stack; source_index = 0 } in
    if is_empty stack then success [] else (do
      permissions ←
          or_error (checked_from_bits (bit_or (to_bit read) (to_bit write)))
            (plan_error permission_construction_failure none)
      span ← to_page_span stack permissions.bits source page_size
      success (span ∷ []))

unfoldable pub boundaries : List PageSpan → ℕ → List ℕ
boundaries [] max_page_index = []
boundaries (s ∷ ss) max_page_index =
    let rest = boundaries ss max_page_index in
    if ltb s.last_page max_page_index
    then s.first_page ∷ (s.last_page + 1) ∷ rest
    else s.first_page ∷ rest

unfoldable pub sorted_boundaries : List PageSpan → ℕ → List ℕ
sorted_boundaries spans max_page_index = unique ◌==◌ (sort ltb (boundaries spans max_page_index))

-- The loop over the spans that cover a page: their permissions and their sources.
unfoldable pub bits_at : List PageSpan → ℕ → ℕ → ℕ
bits_at [] page permission_bits = permission_bits
bits_at (s ∷ ss) page permission_bits =
    bits_at ss page
      (if span_covers s page then bit_or permission_bits s.permission_bits else permission_bits)

unfoldable pub sources_at : List PageSpan → ℕ → List ExecutionMemorySource
sources_at [] page = []
sources_at (s ∷ ss) page =
    let rest = sources_at ss page in if span_covers s page then s.source ∷ rest else rest

-- The part of the round over a boundary that follows the test for sources.
unfoldable pub region_of :
    ℕ → ℕ → ℕ → ℕ → List ExecutionMemorySource → Result ExecutionMemoryRegion ExecutionPlanError
region_of page_size first_page last_page bits sources = do
  let base = first_page * page_size
  let page_count = last_page - first_page + 1
  fail_if (not (bit_and bits (to_bit write) == 0) && not (bit_and bits (to_bit execute) == 0))
      (plan_error mixed_write_execute_page (some base))
  fail_if (ltb (u64_max / page_size) page_count)
      (plan_error host_page_arithmetic_overflow (some base))
  range ←
      or_error (create base (page_count * page_size))
        (plan_error host_page_arithmetic_overflow (some base))
  permissions ←
      or_error (checked_from_bits bits) (plan_error permission_construction_failure (some base))
  success (record {
    range = range;
    permissions = permissions;
    sources = unique same_source (sort source_less sources);
  })

abbrev pub last_page_of : ℕ → List ℕ → ℕ
last_page_of max_page_index [] = max_page_index
last_page_of max_page_index (b ∷ bs) = b - 1

-- The loop over the boundaries.
unfoldable pub build_regions :
    List PageSpan → ℕ → ℕ → List ℕ → Result (List ExecutionMemoryRegion) ExecutionPlanError
build_regions spans page_size max_page_index [] = success []
build_regions spans page_size max_page_index (b ∷ bs) =
    let sources = sources_at spans b in
    let rest = build_regions spans page_size max_page_index bs in
    if length sources == 0 then rest else (do
      region ← region_of page_size b (last_page_of max_page_index bs) (bits_at spans b 0) sources
      regions ← rest
      success (region ∷ regions))

unfoldable pub regions_of :
    List PageSpan → ℕ → Result (List ExecutionMemoryRegion) ExecutionPlanError
regions_of spans page_size = do
  let max_page_index = u64_max / page_size
  fail_if (ltb (u64_max / 2) (length spans)) (plan_error host_allocation_failure none)
  build_regions spans page_size max_page_index (sorted_boundaries spans max_page_index)

unfoldable pub build_execution_memory_plan :
    ExecutionMemoryPlanRequest → Result ExecutionMemoryPlan ExecutionPlanError
build_execution_memory_plan request = do
  let entry = request.entry_point
  let page_size = request.host_page_size
  fail_if (not (is_power_of_two page_size)) (plan_error invalid_host_page_size none)
  mappings ← mapping_spans request.mappings page_size
  stack ← stack_spans request.stack_storage page_size
  regions ← regions_of (mappings ++ stack) page_size
  fail_if (not (any (λ m. contains m.range entry) request.mappings))
      (plan_error entry_point_unmapped (some entry))
  fail_if (not (any (λ m. contains m.range entry && has m.permissions execute) request.mappings))
      (plan_error entry_point_not_executable (some entry))
  fail_if (not (contains request.stack_storage request.stack_pointer))
      (plan_error stack_pointer_unmapped (some request.stack_pointer))
  success (record { host_page_size = page_size; regions = regions })
