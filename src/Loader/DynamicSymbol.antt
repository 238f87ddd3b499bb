-- ===== src/Loader/DynamicSymbol.antt =====
-- include/astraea/loader/dynamic_symbols.hpp and src/loader/dynamic_symbols.cpp: one symbol of the
-- table.
pub mod Entry
use astraea.Prelude.{
  ℕ, ◌-◌, ◌*◌, ◌/◌, Bool, true, ◌&&◌, Option, none, some, List, [], ◌∷◌, ltb, leb, u64_max,
  get_elem?, Result, success, failure,
}
use astraea.Prelude.Attempts.{Attempt, ◌>>=◌, ◌>>◌, read, check}
use astraea.Prelude.LittleEndian.{read_little_endian}
use astraea.Memory.Address.{GuestRange, create, checked_add}
use astraea.Memory.ImageView.{InitializedImageView, InitializedImageError, copy_bytes}
use astraea.Loader.GnuHash.{GnuHashError}
use astraea.Loader.SysvHash.{SysvHashError, address_or}

pub data DynamicSymbolErrorCode : Type 0 where
  conflicting_dynamic_tag missing_required_companion_tag : DynamicSymbolErrorCode
  invalid_symbol_entry_size invalid_symbol_table_size : DynamicSymbolErrorCode
  symbol_count_unavailable conflicting_symbol_count : DynamicSymbolErrorCode
  symbol_table_size_overflow symbol_table_range_overflow : DynamicSymbolErrorCode
  sysv_hash_failure symbol_index_out_of_bounds symbol_entry_unreadable : DynamicSymbolErrorCode
  invalid_undefined_symbol gnu_hash_failure : DynamicSymbolErrorCode

pub record DynamicSymbolError : Type 0 where
  pub code : DynamicSymbolErrorCode
  pub tag : Option ℕ
  pub source_entry_index : Option ℕ
  pub conflicting_entry_index : Option ℕ
  pub symbol_index : Option ℕ
  pub guest_address : Option ℕ
  pub sysv_hash_error : Option SysvHashError
  pub image_error : Option InitializedImageError
  pub gnu_hash_error : Option GnuHashError

pub record DynamicSymbolTableDescriptor : Type 0 where
  pub range : GuestRange
  pub entry_size : ℕ
  pub symbol_count : ℕ
  pub count_from_symtabsz : Bool
  pub count_from_sysv_hash : Bool
  pub symtab_source_entry_index : ℕ
  pub syment_source_entry_index : ℕ
  pub symtabsz_source_entry_index : Option ℕ
  pub hash_source_entry_index : Option ℕ
  pub count_from_gnu_hash : Bool
  pub gnu_hash_source_entry_index : Option ℕ

pub record DynamicSymbol : Type 0 where
  pub index : ℕ
  pub name_offset : ℕ
  pub info : ℕ
  pub other : ℕ
  pub section_index_raw : ℕ
  pub value : ℕ
  pub size : ℕ

-- symbol_error as read_symbol calls it.
abbrev pub symbol_error :
    DynamicSymbolErrorCode
    → DynamicSymbolTableDescriptor
    → ℕ
    → Option ℕ
    → Option InitializedImageError
    → DynamicSymbolError
symbol_error code d index address error = record {
  code = code;
  tag = none;
  source_entry_index = some d.symtab_source_entry_index;
  conflicting_entry_index = none;
  symbol_index = some index;
  guest_address = address;
  sysv_hash_error = none;
  image_error = error;
  gnu_hash_error = none;
}

abbrev pub symbol_address : DynamicSymbolTableDescriptor → ℕ → Attempt ℕ DynamicSymbolError
symbol_address d index = elim (checked_add d.range.base (index * 24)) [
  | success address ↦ some (success address)
  | failure e ↦
      some (failure (symbol_error symbol_table_range_overflow d index (some d.range.base) none))
]

abbrev pub symbol_range :
    DynamicSymbolTableDescriptor → ℕ → ℕ → Attempt GuestRange DynamicSymbolError
symbol_range d index address = elim (create address 24) [
  | success range ↦ some (success range)
  | failure e ↦
      some (failure (symbol_error symbol_table_range_overflow d index (some address) none))
]

abbrev pub no_bytes : List ℕ
no_bytes =
    0 ∷ 0 ∷ 0 ∷ 0 ∷ 0 ∷ 0 ∷ 0 ∷ 0 ∷ 0 ∷ 0 ∷ 0 ∷ 0 ∷ 0 ∷ 0 ∷ 0 ∷ 0 ∷ 0 ∷ 0 ∷ 0 ∷ 0 ∷ 0 ∷ 0 ∷ 0 ∷ 0
    ∷ []

-- The copy of an entry, into a buffer of zeros.
abbrev pub symbol_bytes :
    DynamicSymbolTableDescriptor
    → ℕ
    → ℕ
    → Option (Result ℕ InitializedImageError × List ℕ)
    → Attempt (List ℕ) DynamicSymbolError
symbol_bytes d index address none = none
symbol_bytes d index address (some (success size, bytes)) = some (success bytes)
symbol_bytes d index address (some (failure e, bytes)) = some (
    failure (
      symbol_error symbol_entry_unreadable d index (some (address_or e.guest_address address))
        (some e)))

unfoldable pub decode_symbol : ℕ → List ℕ → Attempt DynamicSymbol DynamicSymbolError
decode_symbol index bytes = do
  name_offset ← read (read_little_endian bytes 0 4)
  info ← read (get_elem? bytes 4)
  other ← read (get_elem? bytes 5)
  section_index_raw ← read (read_little_endian bytes 6 2)
  value ← read (read_little_endian bytes 8 8)
  size ← read (read_little_endian bytes 16 8)
  some (
      success (record {
        index = index;
        name_offset = name_offset;
        info = info;
        other = other;
        section_index_raw = section_index_raw;
        value = value;
        size = size;
      }))

unfoldable pub read_symbol :
    DynamicSymbolTableDescriptor
    → ℕ
    → InitializedImageView
    → Bool
    → Attempt DynamicSymbol DynamicSymbolError
read_symbol d index view enforce_bounds = do
  check (enforce_bounds && leb d.symbol_count index)
      (symbol_error symbol_index_out_of_bounds d index none none)
  check (ltb (u64_max / 24) index) (symbol_error symbol_table_size_overflow d index none none)
  address ← symbol_address d index
  range ← symbol_range d index address
  bytes ← symbol_bytes d index address (copy_bytes view range no_bytes)
  decode_symbol index bytes

abbrev pub parse_dynamic_symbol :
    DynamicSymbolTableDescriptor
    → ℕ
    → InitializedImageView
    → Attempt DynamicSymbol DynamicSymbolError
parse_dynamic_symbol d index view = read_symbol d index view true
