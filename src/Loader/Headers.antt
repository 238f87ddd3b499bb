-- ===== src/Loader/Headers.antt =====
-- The parsed headers of include/astraea/loader/elf64.hpp.
use astraea.Prelude.{ℕ, List}

pub record ElfHeader : Type 0 where
  pub os_abi : ℕ
  pub abi_version : ℕ
  pub type : ℕ
  pub machine : ℕ
  pub version : ℕ
  pub entry : ℕ
  pub program_header_offset : ℕ
  pub section_header_offset : ℕ
  pub flags : ℕ
  pub header_size : ℕ
  pub program_header_entry_size : ℕ
  pub program_header_count : ℕ
  pub section_header_entry_size : ℕ
  pub section_header_count : ℕ
  pub section_name_table_index : ℕ

pub record ProgramHeader : Type 0 where
  pub type : ℕ
  pub flags : ℕ
  pub offset : ℕ
  pub virtual_address : ℕ
  pub physical_address : ℕ
  pub file_size : ℕ
  pub memory_size : ℕ
  pub alignment : ℕ
  pub index : ℕ

pub record ElfImage : Type 0 where
  pub header : ElfHeader
  pub program_headers : List ProgramHeader
