-- ===== src/Memory/Mapping.antt =====
-- include/astraea/memory/mapping.hpp and src/memory/mapping.cpp: what a PT_LOAD segment asks to be
-- mapped, and how two such intents may overlap.
pub mod Segments
pub mod Overlaps
use astraea.Prelude.{
  ℕ, ◌+◌, ◌-◌, ◌%◌, ◌^◌, Bool, not, ◌&&◌, max, List, [], ◌∷◌, ◌++◌, Result, success, failure, ltb,
  ◌==◌, if◌then◌else◌, fail_if, ◌>>=◌, ◌>>◌,
}
use astraea.Prelude.Sorting.{sort}
use astraea.Loader.Headers.{ProgramHeader}
use astraea.Memory.Address.{GuestRange, create, checked_add, overlaps}
use astraea.Memory.Permissions.{GuestPermissions, from_elf_flags}

pub data MappingBackingKind : Type 0 where
  file zero_fill anonymous : MappingBackingKind

-- The enumerators' values, by which they are compared.
abbrev pub kind_value : MappingBackingKind → ℕ
kind_value file = 0
kind_value zero_fill = 1
kind_value anonymous = 2

pub record MappingBacking : Type 0 where
  pub kind : MappingBackingKind
  pub file_offset : ℕ
  pub byte_count : ℕ

pub record MappingIntent : Type 0 where
  pub range : GuestRange
  pub permissions : GuestPermissions
  pub backing : MappingBacking
  pub source_index : ℕ

pub data MappingErrorCode : Type 0 where
  not_load_segment invalid_load_sizes guest_range_overflow : MappingErrorCode
  address_addition_overflow mapping_overlap_conflict : MappingErrorCode

pub record MappingError : Type 0 where
  pub code : MappingErrorCode
  pub first_source_index : ℕ
  pub second_source_index : ℕ

pub data OverlapClass : Type 0 where
  no_overlap identical_compatible different_backing : OverlapClass
  conflicting_initialized_bytes file_vs_zero_fill permission_disagreement : OverlapClass

abbrev pub error : MappingErrorCode → ℕ → MappingError
error code first = record { code = code; first_source_index = first; second_source_index = 0 }

-- `GuestRange::create` and `GuestAddress::checked_add` with the caller's error in place of theirs.
abbrev pub or_error {ℓ κ μ} : {A : Type ℓ} {E : Type κ} {F : Type μ} → Result A E → F → Result A F
or_error (success a) f = success a
or_error (failure e) f = failure f

unfoldable pub mapping_intent_less : MappingIntent → MappingIntent → Bool
mapping_intent_less lhs rhs =
    if not (lhs.range.base == rhs.range.base)
    then ltb lhs.range.base rhs.range.base
    else if not (lhs.range.size == rhs.range.size)
    then ltb lhs.range.size rhs.range.size
    else if not (lhs.source_index == rhs.source_index)
    then ltb lhs.source_index rhs.source_index
    else ltb (kind_value lhs.backing.kind) (kind_value rhs.backing.kind)

-- The first `push_back`: the bytes that the file holds.
unfoldable pub file_intents : ProgramHeader → Result (List MappingIntent) MappingError
file_intents h =
    if ltb 0 h.file_size
    then (do
      file_range ←
          or_error (create h.virtual_address h.file_size) (error guest_range_overflow h.index)
      success (
          record {
            range = file_range;
            permissions = from_elf_flags h.flags;
            backing = record { kind = file; file_offset = h.offset; byte_count = h.file_size };
            source_index = h.index;
          }
          ∷ []))
    else success []

-- The second one: the rest of the segment is zero.
unfoldable pub zero_intents : ProgramHeader → Result (List MappingIntent) MappingError
zero_intents h =
    if ltb h.file_size h.memory_size
    then (do
      let zero_size = h.memory_size - h.file_size
      zero_base ←
          or_error (checked_add h.virtual_address h.file_size)
            (error address_addition_overflow h.index)
      zero_range ← or_error (create zero_base zero_size) (error guest_range_overflow h.index)
      success (
          record {
            range = zero_range;
            permissions = from_elf_flags h.flags;
            backing = record { kind = zero_fill; file_offset = 0; byte_count = zero_size };
            source_index = h.index;
          }
          ∷ []))
    else success []

unfoldable pub segment_intents : ProgramHeader → Result (List MappingIntent) MappingError
segment_intents h = do
  full_range ←
      or_error (create h.virtual_address h.memory_size) (error guest_range_overflow h.index)
  files ← file_intents h
  zeros ← zero_intents h
  success (sort mapping_intent_less (files ++ zeros))

unfoldable pub mapping_intents_from_load : ProgramHeader → Result (List MappingIntent) MappingError
mapping_intents_from_load h = do
  fail_if (not (h.type == 1)) (error not_load_segment h.index)
  fail_if (ltb h.memory_size h.file_size) (error invalid_load_sizes h.index)
  if h.memory_size == 0 then success [] else segment_intents h

abbrev pub overlap_start : MappingIntent → MappingIntent → ℕ
overlap_start lhs rhs = max lhs.range.base rhs.range.base

-- Unsigned 64-bit addition wraps.
abbrev pub file_position_at : MappingIntent → ℕ → ℕ
file_position_at m address = (m.backing.file_offset + (address - m.range.base)) % 2 ^ 64

abbrev pub same_range : GuestRange → GuestRange → Bool
same_range r s = r.base == s.base && r.size == s.size

abbrev pub same_kind : MappingBackingKind → MappingBackingKind → Bool
same_kind k l = kind_value k == kind_value l

abbrev pub same_backing : MappingBacking → MappingBacking → Bool
same_backing b c =
    same_kind b.kind c.kind && b.file_offset == c.file_offset && b.byte_count == c.byte_count

unfoldable pub classify_overlap : MappingIntent → MappingIntent → OverlapClass
classify_overlap lhs rhs =
    let identical = same_range lhs.range rhs.range && same_backing lhs.backing rhs.backing in
    let start = overlap_start lhs rhs in
    if not (overlaps lhs.range rhs.range)
    then no_overlap
    else if not (lhs.permissions.bits == rhs.permissions.bits)
    then permission_disagreement
    else if not (same_kind lhs.backing.kind rhs.backing.kind)
    then file_vs_zero_fill
    else if same_kind lhs.backing.kind file
    then (if not (file_position_at lhs start == file_position_at rhs start)
        then conflicting_initialized_bytes
        else if identical
        then identical_compatible
        else different_backing)
    else (if identical then identical_compatible else different_backing)
