-- ===== src/Loader/Elf64.antt =====
-- include/astraea/loader/elf64.hpp and src/loader/elf64.cpp: the parser of ELF headers.
pub mod Fields
pub mod Checks
pub mod Parse
use astraea.Prelude.{
  ℕ, zero, suc, ◌+◌, ◌-◌, ◌*◌, ◌/◌, ◌%◌, ◌^◌, bit_and, Bool, false, not, ◌&&◌, ◌||◌, Option, none,
  some, List, [], ◌∷◌, ltb, ◌==◌, if◌then◌else◌, u64_max, length, get_elem?, success,
}
use astraea.Prelude.Attempts.{Attempt, ◌>>=◌, ◌>>◌, read, check}
use astraea.Prelude.LittleEndian.{read_little_endian}
use astraea.Loader.Headers.{ElfHeader, ProgramHeader, ElfImage}

pub data ElfParseProfile : Type 0 where
  generic ps5_sce ps5_marked_raw : ElfParseProfile

pub data ElfErrorCode : Type 0 where
  file_too_small bad_magic unsupported_class unsupported_endianness : ElfErrorCode
  unsupported_ident_version unsupported_elf_version unsupported_machine : ElfErrorCode
  unsupported_file_type invalid_elf_header_size invalid_program_header_entry_size : ElfErrorCode
  unsupported_extended_program_header_count integer_overflow : ElfErrorCode
  program_header_table_out_of_bounds segment_file_range_out_of_bounds : ElfErrorCode
  load_file_size_exceeds_memory_size load_virtual_range_overflow : ElfErrorCode
  invalid_load_alignment load_segments_out_of_order : ElfErrorCode

pub record ElfError : Type 0 where
  pub code : ElfErrorCode
  pub program_header_index : Option ℕ
  pub file_offset : ℕ

abbrev pub elf_magic : List ℕ
elf_magic = 127 ∷ 69 ∷ 76 ∷ 70 ∷ []

abbrev pub header_error : ElfErrorCode → ℕ → ElfError
header_error code offset = record { code = code; program_header_index = none; file_offset = offset }

abbrev pub program_header_error : ElfErrorCode → ℕ → ℕ → ElfError
program_header_error code index offset = record {
  code = code;
  program_header_index = some index;
  file_offset = offset;
}

-- The test of checked_add, whose result is the plain sum where it passes.
abbrev pub add_overflows : ℕ → ℕ → Bool
add_overflows lhs rhs = ltb (u64_max - rhs) lhs

abbrev pub multiply_overflows : ℕ → ℕ → Bool
multiply_overflows lhs rhs = not (lhs == 0) && ltb (u64_max / lhs) rhs

unfoldable pub is_power_of_two : ℕ → Bool
is_power_of_two value = not (value == 0) && bit_and value (value - 1) == 0

unfoldable pub supported_file_type : ℕ → ℕ → ℕ → ElfParseProfile → Bool
supported_file_type type os_abi abi_version generic = type == 2 || type == 3
supported_file_type type os_abi abi_version ps5_sce = type == 65040 || type == 65048
supported_file_type type os_abi abi_version ps5_marked_raw =
    type == 3 && os_abi == 9 && abi_version == 2

-- The loop over the magic, from byte `i` on.
unfoldable pub check_magic : List ℕ → List ℕ → ℕ → Attempt (Unit {0}) ElfError
check_magic bytes [] i = some (success tt)
check_magic bytes (m ∷ ms) i = do
  b ← read (get_elem? bytes i)
  check (not (b == m)) (header_error bad_magic i)
  check_magic bytes ms (i + 1)

-- The checks on the identification bytes.
unfoldable pub check_ident : List ℕ → Attempt (Unit {0}) ElfError
check_ident bytes = do
  check (ltb (length bytes) 16) (header_error file_too_small 0)
  check_magic bytes elf_magic 0
  class ← read (get_elem? bytes 4)
  check (not (class == 2)) (header_error unsupported_class 4)
  order ← read (get_elem? bytes 5)
  check (not (order == 1)) (header_error unsupported_endianness 5)
  version ← read (get_elem? bytes 6)
  check (not (version == 1)) (header_error unsupported_ident_version 6)
  check (ltb (length bytes) 64) (header_error file_too_small 16)

unfoldable pub read_header : List ℕ → Attempt ElfHeader ElfError
read_header bytes = do
  os_abi ← read (get_elem? bytes 7)
  abi_version ← read (get_elem? bytes 8)
  type ← read (read_little_endian bytes 16 2)
  machine ← read (read_little_endian bytes 18 2)
  version ← read (read_little_endian bytes 20 4)
  entry ← read (read_little_endian bytes 24 8)
  program_header_offset ← read (read_little_endian bytes 32 8)
  section_header_offset ← read (read_little_endian bytes 40 8)
  flags ← read (read_little_endian bytes 48 4)
  header_size ← read (read_little_endian bytes 52 2)
  program_header_entry_size ← read (read_little_endian bytes 54 2)
  program_header_count ← read (read_little_endian bytes 56 2)
  section_header_entry_size ← read (read_little_endian bytes 58 2)
  section_header_count ← read (read_little_endian bytes 60 2)
  section_name_table_index ← read (read_little_endian bytes 62 2)
  some (
      success (record {
        os_abi = os_abi;
        abi_version = abi_version;
        type = type;
        machine = machine;
        version = version;
        entry = entry;
        program_header_offset = program_header_offset;
        section_header_offset = section_header_offset;
        flags = flags;
        header_size = header_size;
        program_header_entry_size = program_header_entry_size;
        program_header_count = program_header_count;
        section_header_entry_size = section_header_entry_size;
        section_header_count = section_header_count;
        section_name_table_index = section_name_table_index;
      }))

-- The checks on the header before the number of program headers is looked at.
unfoldable pub check_header : ElfHeader → ElfParseProfile → Attempt (Unit {0}) ElfError
check_header h profile = do
  check (not (h.version == 1)) (header_error unsupported_elf_version 20)
  check (not (h.machine == 62)) (header_error unsupported_machine 18)
  check (not (supported_file_type h.type h.os_abi h.abi_version profile))
      (header_error unsupported_file_type 16)
  check (not (h.header_size == 64)) (header_error invalid_elf_header_size 52)
  check (h.program_header_count == 65535)
      (header_error unsupported_extended_program_header_count 56)

-- The checks on the table of program headers, for a file of `input_size` bytes.
unfoldable pub check_table : ElfHeader → ℕ → Attempt (Unit {0}) ElfError
check_table h input_size =
    let table_size = h.program_header_count * h.program_header_entry_size in
    let table_end = h.program_header_offset + table_size in
    do
      check (not (h.program_header_entry_size == 56))
          (header_error invalid_program_header_entry_size 54)
      check (multiply_overflows h.program_header_count h.program_header_entry_size)
          (header_error integer_overflow 56)
      check (add_overflows h.program_header_offset table_size) (header_error integer_overflow 32)
      check (ltb input_size h.program_header_offset || ltb input_size table_end)
          (header_error program_header_table_out_of_bounds 32)

-- `entry_offset` and the sums with it wrap around.
unfoldable pub read_program_header : List ℕ → ℕ → ℕ → Attempt ProgramHeader ElfError
read_program_header bytes at index = do
  type ← read (read_little_endian bytes at 4)
  flags ← read (read_little_endian bytes ((at + 4) % 2 ^ 64) 4)
  offset ← read (read_little_endian bytes ((at + 8) % 2 ^ 64) 8)
  virtual_address ← read (read_little_endian bytes ((at + 16) % 2 ^ 64) 8)
  physical_address ← read (read_little_endian bytes ((at + 24) % 2 ^ 64) 8)
  file_size ← read (read_little_endian bytes ((at + 32) % 2 ^ 64) 8)
  memory_size ← read (read_little_endian bytes ((at + 40) % 2 ^ 64) 8)
  alignment ← read (read_little_endian bytes ((at + 48) % 2 ^ 64) 8)
  some (
      success (record {
        type = type;
        flags = flags;
        offset = offset;
        virtual_address = virtual_address;
        physical_address = physical_address;
        file_size = file_size;
        memory_size = memory_size;
        alignment = alignment;
        index = index;
      }))

abbrev pub misaligned : ProgramHeader → Bool
misaligned h =
    not (is_power_of_two h.alignment)
    || not (h.virtual_address % h.alignment == h.offset % h.alignment)

abbrev pub below_previous : Option ℕ → ℕ → Bool
below_previous none address = false
below_previous (some previous) address = ltb address previous

-- The checks on a program header of type PT_LOAD that stands `at` this offset of the file.
unfoldable pub check_load : ProgramHeader → ℕ → ℕ → Option ℕ → Attempt (Unit {0}) ElfError
check_load h at input_size previous = do
  check (ltb h.memory_size h.file_size)
      (program_header_error load_file_size_exceeds_memory_size h.index at)
  check (ltb 0 h.file_size && add_overflows h.offset h.file_size)
      (program_header_error integer_overflow h.index ((at + 8) % 2 ^ 64))
  check (ltb 0 h.file_size && (ltb input_size h.offset || ltb input_size (h.offset + h.file_size)))
      (program_header_error segment_file_range_out_of_bounds h.index ((at + 8) % 2 ^ 64))
  check (ltb 0 h.memory_size && ltb (u64_max - (h.memory_size - 1)) h.virtual_address)
      (program_header_error load_virtual_range_overflow h.index ((at + 16) % 2 ^ 64))
  check (ltb 1 h.alignment && misaligned h)
      (program_header_error invalid_load_alignment h.index ((at + 48) % 2 ^ 64))
  check (below_previous previous h.virtual_address)
      (program_header_error load_segments_out_of_order h.index ((at + 16) % 2 ^ 64))

-- `previous_load_address` after a program header, if that passes its checks.
unfoldable pub next_load_address : ProgramHeader → ℕ → ℕ → Option ℕ → Attempt (Option ℕ) ElfError
next_load_address h at input_size previous =
    if h.type == 1
    then (do check_load h at input_size previous; some (success (some h.virtual_address)))
    else some (success previous)

-- The loop from `index` on, with the number of rounds that are left.
unfoldable pub program_headers_from :
    List ℕ → ℕ → ℕ → ℕ → Option ℕ → Attempt (List ProgramHeader) ElfError
program_headers_from bytes table_offset zero index previous = some (success [])
program_headers_from bytes table_offset (suc rounds) index previous =
    let at = (table_offset + index * 56) % 2 ^ 64 in
    do
      h ← read_program_header bytes at index
      next ← next_load_address h at (length bytes) previous
      hs ← program_headers_from bytes table_offset rounds (index + 1) next
      some (success (h ∷ hs))

-- The rest of parse_elf64, with a header that passes its checks.
unfoldable pub parse_program_headers : List ℕ → ElfHeader → Attempt (List ProgramHeader) ElfError
parse_program_headers bytes h = if h.program_header_count == 0 then some (success []) else (do
  check_table h (length bytes)
  program_headers_from bytes h.program_header_offset h.program_header_count 0 none)

unfoldable pub parse_elf64 : List ℕ → ElfParseProfile → Attempt ElfImage ElfError
parse_elf64 bytes profile = do
  check_ident bytes
  header ← read_header bytes
  check_header header profile
  program_headers ← parse_program_headers bytes header
  some (success (record { header = header; program_headers = program_headers }))
