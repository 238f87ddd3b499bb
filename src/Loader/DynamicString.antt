-- ===== src/Loader/DynamicString.antt =====
-- include/astraea/loader/dynamic_string.hpp and src/loader/dynamic_string.cpp: a string of the
-- dynamic string table, read through the initialized image. Allocation always succeeds here.
pub mod Resolve
use astraea.Prelude.{
  ℕ, zero, suc, ◌+◌, ◌-◌, ◌/◌, Option, none, some, List, [], ◌∷◌, ltb, leb, ◌==◌, if◌then◌else◌,
  success, failure,
}
use astraea.Prelude.Attempts.{Attempt, ◌>>=◌, ◌>>◌, read, check}
use astraea.Memory.Address.{GuestRange, checked_add}
use astraea.Memory.ImageView.{InitializedImageView, InitializedImageError, read_byte}

pub record DynamicStringRef : Type 0 where
  pub offset : ℕ
  pub source_entry_index : ℕ

pub record DynamicStringTableDescriptor : Type 0 where
  pub range : GuestRange

pub data DynamicStringErrorCode : Type 0 where
  offset_out_of_bounds unterminated image_read_failure : DynamicStringErrorCode
  guest_address_overflow host_size_unrepresentable : DynamicStringErrorCode
  host_allocation_failure : DynamicStringErrorCode

pub record DynamicStringError : Type 0 where
  pub code : DynamicStringErrorCode
  pub source_entry_index : ℕ
  pub offset : ℕ
  pub guest_address : Option ℕ
  pub image_error : Option InitializedImageError

abbrev pub string_error :
    DynamicStringErrorCode
    → DynamicStringRef
    → ℕ
    → Option InitializedImageError
    → DynamicStringError
string_error code reference address e = record {
  code = code;
  source_entry_index = reference.source_entry_index;
  offset = reference.offset;
  guest_address = some address;
  image_error = e;
}

unfoldable pub address_at : ℕ → ℕ → DynamicStringRef → Attempt ℕ DynamicStringError
address_at base offset reference = elim (checked_add base offset) [
  | success address ↦ some (success address)
  | failure e ↦ some (failure (string_error guest_address_overflow reference base none))
]

unfoldable pub image_byte :
    InitializedImageView → ℕ → DynamicStringRef → Attempt ℕ DynamicStringError
image_byte view address reference = elim (read_byte view address) [
  | none ↦ none
  | some (success b) ↦ some (success b)
  | some (failure e) ↦ some (failure (string_error image_read_failure reference address (some e)))
]

-- The loop that looks for the terminator, from index `i` on, with the rounds that are left.
unfoldable pub find_length :
    InitializedImageView → DynamicStringRef → ℕ → ℕ → ℕ → Attempt ℕ DynamicStringError
find_length view reference start zero i =
    some (failure (string_error unterminated reference start none))
find_length view reference start (suc rounds) i =
    let rest = find_length view reference start rounds (i + 1) in
    do
      address ← address_at start i reference
      byte ← image_byte view address reference
      if byte == 0 then some (success i) else rest

-- The loop that reads the bytes once more, into `value`.
unfoldable pub copy_string :
    InitializedImageView → DynamicStringRef → ℕ → ℕ → ℕ → Attempt (List ℕ) DynamicStringError
copy_string view reference start zero i = some (success [])
copy_string view reference start (suc rounds) i = do
  address ← address_at start i reference
  byte ← image_byte view address reference
  rest ← copy_string view reference start rounds (i + 1)
  some (success (byte ∷ rest))

-- `max_size` is that of `std::string`.
unfoldable pub resolve_dynamic_string :
    ℕ
    → DynamicStringTableDescriptor
    → DynamicStringRef
    → InitializedImageView
    → Attempt (List ℕ) DynamicStringError
resolve_dynamic_string max_size table reference view =
    let table_size = table.range.size in
    do
      check (leb table_size reference.offset)
          (string_error offset_out_of_bounds reference table.range.base none)
      start ← address_at table.range.base reference.offset reference
      size ← find_length view reference start (table_size - reference.offset) 0
      check (ltb max_size size) (string_error host_size_unrepresentable reference start none)
      copy_string view reference start size 0
