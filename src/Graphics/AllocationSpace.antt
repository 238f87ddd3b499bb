-- ===== src/Graphics/AllocationSpace.antt =====
-- include/astraea/graphics/gpu_allocation_address_space.hpp and
-- src/graphics/gpu_allocation_address_space.cpp: disjoint allocations in the guest GPU's address
-- space.
pub mod Register
pub mod Resolve
use astraea.Prelude.{
  ℕ, zero, suc, ◌+◌, ◌-◌, ◌*◌, ◌/◌, ◌%◌, ◌^◌, ◌≤◌, ◌<◌, min, max, bit_and, bit_or, ◌≡◌, refl, sym,
  ap, ◌∙◌, ◌≢◌, ◌↔◌, ◌⊎◌, inl, inr, Bool, true, false, not, ◌&&◌, ◌||◌, Option, none, some, List,
  [], ◌∷◌, ◌++◌, map, arith, ltb, leb, ◌==◌, if◌then◌else◌, u64_max, u32_max, ltb→lt, lt→ltb,
  leb→le, le→leb, ==_iff, Bool-cases, Option-cases, length, get_elem?, take, drop, any,
  length-append, get_elem?-lt, get_elem?-ge, All, All-append, Any, Result, success, failure,
  has_value, Result-cases, ◌>>=◌, ◌>>◌, fail_if, >>=-eq-success,
}

pub record GuestGpuAllocation : Type 0 where
  pub id : ℕ
  pub base : ℕ
  pub byte_size : ℕ

-- `registration_overflow` and `resolution_overflow` are the source's two `address_range_overflow`.
pub data RegistrationErrorCode : Type 0 where
  zero_sized_allocation registration_overflow overlapping_allocation : RegistrationErrorCode
  host_size_unrepresentable host_allocation_failure : RegistrationErrorCode

pub record RegistrationError : Type 0 where
  pub code : RegistrationErrorCode
  pub base : ℕ
  pub byte_size : ℕ
  pub conflicting_allocation_id : Option ℕ

pub data ResolutionErrorCode : Type 0 where
  zero_sized_request resolution_overflow unmapped_range partially_mapped_range : ResolutionErrorCode

pub record ResolutionError : Type 0 where
  pub code : ResolutionErrorCode
  pub address : ℕ
  pub byte_count : ℕ
  pub intersecting_allocation_id : Option ℕ

pub record GuestGpuAllocationResolution : Type 0 where
  pub allocation_id : ℕ
  pub byte_offset : ℕ
  pub byte_count : ℕ

-- checked_end: `none` is `false`, which leaves `end` alone.
unfoldable pub checked_end : ℕ → ℕ → Option ℕ
checked_end base byte_size =
    if ltb (u64_max - byte_size) base then none else some (base + byte_size)

unfoldable pub ranges_overlap : ℕ → ℕ → ℕ → ℕ → Bool
ranges_overlap left_begin left_end right_begin right_end =
    ltb left_begin right_end && ltb right_begin left_end

abbrev pub registration_error : RegistrationErrorCode → ℕ → ℕ → Option ℕ → RegistrationError
registration_error code base byte_size conflicting = record {
  code = code;
  base = base;
  byte_size = byte_size;
  conflicting_allocation_id = conflicting;
}

abbrev pub resolution_error : ResolutionErrorCode → ℕ → ℕ → Option ℕ → ResolutionError
resolution_error code address byte_count intersecting = record {
  code = code;
  address = address;
  byte_count = byte_count;
  intersecting_allocation_id = intersecting;
}

-- The vector of allocations, in the order of registration.
abbrev pub AddressSpace : Type 0
AddressSpace = List GuestGpuAllocation

-- One round of the loop of register_allocation: the early return, if there is one.
unfoldable pub conflict_with : ℕ → ℕ → ℕ → GuestGpuAllocation → Option RegistrationError
unfolding checked_end ranges_overlap
conflict_with base byte_size end allocation =
    elim (checked_end allocation.base allocation.byte_size) [
      | none ↦ some (
          registration_error registration_overflow allocation.base allocation.byte_size
            (some allocation.id))
      | some allocation_end ↦
          if ranges_overlap base end allocation.base allocation_end
          then some (registration_error overlapping_allocation base byte_size (some allocation.id))
          else none
    ]

unfoldable pub find_conflict : ℕ → ℕ → ℕ → AddressSpace → Option RegistrationError
find_conflict base byte_size end [] = none
find_conflict base byte_size end (x ∷ xs) =
    let rest = find_conflict base byte_size end xs in
    elim (conflict_with base byte_size end x) [ some e ↦ some e | none ↦ rest ]

-- The result with the space that the call leaves. Running out of host memory in `push_back` is not
-- modelled.
unfoldable pub register_allocation :
    AddressSpace → ℕ → ℕ → Result ℕ RegistrationError × AddressSpace
register_allocation allocations base byte_size =
    let id = length allocations in
    let added : GuestGpuAllocation = record { id = id; base = base; byte_size = byte_size } in
    if byte_size == 0
    then (failure (registration_error zero_sized_allocation base byte_size none), allocations)
    else (elim (checked_end base byte_size) [
      | none ↦ (failure (registration_error registration_overflow base byte_size none), allocations)
      | some end ↦ elim (find_conflict base byte_size end allocations) [
        | some e ↦ (failure e, allocations)
        | none ↦ (success id, allocations ++ (added ∷ []))
      ]
    ])

-- The allocation holds the whole request, and it meets the request; neither where its end
-- overflows.
unfoldable pub contains_request : ℕ → ℕ → GuestGpuAllocation → Bool
unfolding checked_end
contains_request address request_end x = elim (checked_end x.base x.byte_size) [
  | none ↦ false
  | some allocation_end ↦ leb x.base address && leb request_end allocation_end
]

unfoldable pub meets_request : ℕ → ℕ → GuestGpuAllocation → Bool
unfolding checked_end ranges_overlap
meets_request address request_end x = elim (checked_end x.base x.byte_size) [
  | none ↦ false
  | some allocation_end ↦ ranges_overlap address request_end x.base allocation_end
]

-- The loop of resolve_range, with the last allocation so far that meets the request.
unfoldable pub resolve_loop :
    ℕ → ℕ → ℕ → AddressSpace → Option ℕ → Result GuestGpuAllocationResolution ResolutionError
resolve_loop address byte_count request_end [] none =
    failure (resolution_error unmapped_range address byte_count none)
resolve_loop address byte_count request_end [] (some id) =
    failure (resolution_error partially_mapped_range address byte_count (some id))
resolve_loop address byte_count request_end (x ∷ xs) intersecting =
    let met = if meets_request address request_end x then some x.id else intersecting in
    let rest = resolve_loop address byte_count request_end xs met in
    let found : GuestGpuAllocationResolution = record {
      allocation_id = x.id;
      byte_offset = address - x.base;
      byte_count = byte_count;
    } in
    if contains_request address request_end x then success found else rest

unfoldable pub resolve_range :
    AddressSpace → ℕ → ℕ → Result GuestGpuAllocationResolution ResolutionError
resolve_range allocations address byte_count =
    if byte_count == 0
    then failure (resolution_error zero_sized_request address byte_count none)
    else (elim (checked_end address byte_count) [
      | none ↦ failure (resolution_error resolution_overflow address byte_count none)
      | some request_end ↦ resolve_loop address byte_count request_end allocations none
    ])

unfoldable pub entry_at : AddressSpace → ℕ → Option GuestGpuAllocation
entry_at [] id = none
entry_at (x ∷ xs) id = let rest = entry_at xs id in if x.id == id then some x else rest
