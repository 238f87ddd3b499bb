-- ===== src/Memory/Mapping/Segments.antt =====
-- mapping_intents_from_load: the intents of a segment cover it, byte for byte.
use astraea.Prelude.{
  ◌==◌, Result, not, ◌&&◌, Option, none, some, ℕ, ◌+◌, ◌-◌, ◌≤◌, ◌≡◌, ◌||◌, List, [], ◌∷◌, ◌++◌,
  success, failure, ltb, leb, if◌then◌else◌, u64_max, All, arith,
}
use astraea.Prelude.Sorting.{sort}
use astraea.Loader.Headers.{ProgramHeader}
use astraea.Memory.Address.{IsRange, create, checked_add, contains}
use astraea.Memory.Permissions.{from_elf_flags}
use astraea.Memory.Mapping.{
  MappingError, MappingIntent, file, zero_fill, anonymous, error, not_load_segment,
  invalid_load_sizes, guest_range_overflow, mapping_intent_less, file_intents, zero_intents,
  segment_intents, mapping_intents_from_load,
}

-- Where the initial value of a byte comes from.
pub data ByteSource : Type 0 where
  file_byte : ℕ → ByteSource
  zero_byte : ByteSource

abbrev pub backing_source : MappingIntent → ℕ → ByteSource
backing_source m a = elim m.backing.kind [
  | file ↦ file_byte (m.backing.file_offset + (a - m.range.base))
  | zero_fill ↦ zero_byte
  | anonymous ↦ zero_byte
]

-- The sources that a list of intents gives for an address, in order.
abbrev pub sources_at : List MappingIntent → ℕ → List ByteSource
sources_at [] a = []
sources_at (m ∷ ms) a =
    let rest = sources_at ms a in if contains m.range a then backing_source m a ∷ rest else rest

-- What ELF says of a PT_LOAD segment: file bytes first, then zeros, and nothing outside it.
abbrev pub segment_sources : ProgramHeader → ℕ → List ByteSource
segment_sources h a =
    if ltb a h.virtual_address || leb (h.virtual_address + h.memory_size) a
    then []
    else if ltb a (h.virtual_address + h.file_size)
    then file_byte (h.offset + (a - h.virtual_address)) ∷ []
    else zero_byte ∷ []

-- The segment is PT_LOAD, its sizes are in order and its last byte has a 64-bit address.
pub record IsLoad (h : ProgramHeader) : Type 0 where
  pub load : h.type ≡ 1
  pub sizes : h.file_size ≤ h.memory_size
  pub address_fits : h.virtual_address ≤ u64_max
  pub fits : h.virtual_address + h.memory_size ≤ u64_max + 1

abbrev pub OfSegment : ProgramHeader → MappingIntent → Type 0
OfSegment h m =
    IsRange m.range
    × (m.permissions ≡ from_elf_flags h.flags)
    × (m.source_index ≡ h.index)
    × (m.backing.byte_count ≡ m.range.size)

abbrev file_intent : ProgramHeader → MappingIntent
file_intent h = record {
  range = record { base = h.virtual_address; size = h.file_size };
  permissions = from_elf_flags h.flags;
  backing = record { kind = file; file_offset = h.offset; byte_count = h.file_size };
  source_index = h.index;
}

abbrev zero_intent : ProgramHeader → MappingIntent
zero_intent h = record {
  range = record { base = h.virtual_address + h.file_size; size = h.memory_size - h.file_size };
  permissions = from_elf_flags h.flags;
  backing = record { kind = zero_fill; file_offset = 0; byte_count = h.memory_size - h.file_size };
  source_index = h.index;
}

abbrev pub load_intents : ProgramHeader → List MappingIntent
load_intents h =
    (if ltb 0 h.file_size then file_intent h ∷ [] else [])
    ++ (if ltb h.file_size h.memory_size then zero_intent h ∷ [] else [])

file_intents_lem :
    (h : ProgramHeader)
    → IsLoad h
    → file_intents h ≡ success (if ltb 0 h.file_size then file_intent h ∷ [] else [])
unfolding file_intents create
file_intents_lem h l = ground arith

zero_intents_lem :
    (h : ProgramHeader)
    → IsLoad h
    → zero_intents h ≡ success (if ltb h.file_size h.memory_size then zero_intent h ∷ [] else [])
unfolding zero_intents create checked_add
zero_intents_lem h l = ground arith

sort-load_intents : (h : ProgramHeader) → sort mapping_intent_less (load_intents h) ≡ load_intents h
unfolding sort mapping_intent_less
sort-load_intents h = ground arith

pub from_load :
    (h : ProgramHeader) → IsLoad h → mapping_intents_from_load h ≡ success (load_intents h)
unfolding mapping_intents_from_load segment_intents create
from_load h l = ground (arith, file_intents_lem h l, zero_intents_lem h l, sort-load_intents h)

pub sources_at-load_intents :
    (h : ProgramHeader) (a : ℕ) → IsLoad h → sources_at (load_intents h) a ≡ segment_sources h a
unfolding contains
sources_at-load_intents h a l = ground arith

load_intents-OfSegment : (h : ProgramHeader) → IsLoad h → All (OfSegment h) (load_intents h)
load_intents-OfSegment h l = ground arith

-- A PT_LOAD segment whose sizes are in order and whose last byte has a 64-bit address has intents.
-- Each address of the segment has one source among them: the byte of the file that ELF names, or
-- zero past the file's part. No address outside has one. Each intent carries the segment's
-- permissions and index, and backs its whole range.
pub mapping_intents_from_load_covers :
    (h : ProgramHeader)
    → IsLoad h
    → (ms : List MappingIntent) × (mapping_intents_from_load h ≡ success ms)
      × ((a : ℕ) → sources_at ms a ≡ segment_sources h a)
      × All (OfSegment h) ms
mapping_intents_from_load_covers h l =
    (load_intents h, from_load h l, λ a. sources_at-load_intents h a l, load_intents-OfSegment h l)

abbrev pub error_of : Result (List MappingIntent) MappingError → Option MappingError
error_of (success ms) = none
error_of (failure e) = some e

-- What is wrong with a segment, as the first of three defects.
abbrev pub load_error : ProgramHeader → Option MappingError
load_error h =
    if not (h.type == 1)
    then some (error not_load_segment h.index)
    else if ltb h.memory_size h.file_size
    then some (error invalid_load_sizes h.index)
    else if ltb 0 h.memory_size && ltb (u64_max + 1) (h.virtual_address + h.memory_size)
    then some (error guest_range_overflow h.index)
    else none

-- For 64-bit addresses and sizes, the call fails exactly on the segments with a defect, names the
-- first one and the segment's index, and never answers `address_addition_overflow`.
pub mapping_intents_from_load_error :
    (h : ProgramHeader)
    → h.virtual_address ≤ u64_max
    → h.memory_size ≤ u64_max
    → error_of (mapping_intents_from_load h) ≡ load_error h
unfolding mapping_intents_from_load segment_intents file_intents zero_intents create checked_add
mapping_intents_from_load_error h v w = ground arith
