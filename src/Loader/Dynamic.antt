-- ===== src/Loader/Dynamic.antt =====
-- include/astraea/loader/dynamic.hpp and src/loader/dynamic.cpp: the table of PT_DYNAMIC. A tag
-- stands for its 64 bits; those that the loader compares are not negative.
pub mod Scan
use astraea.Prelude.{
  ℕ, zero, suc, ◌+◌, ◌-◌, ◌*◌, ◌/◌, ◌%◌, ◌^◌, not, ◌||◌, Option, none, some, List, [], ◌∷◌, ltb,
  ◌==◌, if◌then◌else◌, u64_max, length, success, failure,
}
use astraea.Prelude.Attempts.{Attempt, ◌>>=◌, ◌>>◌, read, check}
use astraea.Prelude.LittleEndian.{read_little_endian}
use astraea.Loader.Headers.{ProgramHeader}

pub data DynamicErrorCode : Type 0 where
  not_dynamic_segment integer_overflow segment_out_of_bounds : DynamicErrorCode
  invalid_segment_size missing_terminator : DynamicErrorCode

pub record DynamicError : Type 0 where
  pub code : DynamicErrorCode
  pub entry_index : Option ℕ
  pub file_offset : ℕ

pub record DynamicEntry : Type 0 where
  pub tag : ℕ
  pub value : ℕ
  pub index : ℕ

pub record DynamicTable : Type 0 where
  pub entries : List DynamicEntry

abbrev pub error : DynamicErrorCode → ℕ → Option ℕ → DynamicError
error code offset index = record { code = code; entry_index = index; file_offset = offset }

-- The checks before the loop, for a file of `input_size` bytes.
unfoldable pub check_segment : ProgramHeader → ℕ → Attempt (Unit {0}) DynamicError
check_segment segment input_size = do
  check (not (segment.type == 2)) (error not_dynamic_segment segment.offset none)
  check (segment.file_size == 0) (error missing_terminator segment.offset none)
  check (not (segment.file_size % 16 == 0)) (error invalid_segment_size segment.offset none)
  check (ltb (u64_max - segment.file_size) segment.offset)
      (error integer_overflow segment.offset none)
  check (ltb input_size segment.offset || ltb input_size (segment.offset + segment.file_size))
      (error segment_out_of_bounds segment.offset none)

unfoldable pub read_entry : List ℕ → ProgramHeader → ℕ → Attempt DynamicEntry DynamicError
read_entry bytes segment index =
    let at = (segment.offset + index * 16 % 2 ^ 64) % 2 ^ 64 in
    do
      tag ← read (read_little_endian bytes at 8)
      value ← read (read_little_endian bytes ((at + 8) % 2 ^ 64) 8)
      some (success (record { tag = tag; value = value; index = index }))

-- The loop from `index` on, with the number of rounds that are left.
unfoldable pub entries_from :
    List ℕ → ProgramHeader → ℕ → ℕ → Attempt (List DynamicEntry) DynamicError
entries_from bytes segment zero index =
    some (failure (error missing_terminator segment.offset (some index)))
entries_from bytes segment (suc rounds) index =
    let rest = entries_from bytes segment rounds (index + 1) in
    do
      entry ← read_entry bytes segment index
      let last = some (success (entry ∷ []))
      let more = do entries ← rest; some (success (entry ∷ entries))
      if entry.tag == 0 then last else more

unfoldable pub parse_dynamic_table : List ℕ → ProgramHeader → Attempt DynamicTable DynamicError
parse_dynamic_table bytes segment = do
  check_segment segment (length bytes)
  entries ← entries_from bytes segment (segment.file_size / 16) 0
  some (success (record { entries = entries }))
