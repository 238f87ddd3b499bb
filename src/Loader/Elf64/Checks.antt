-- ===== src/Loader/Elf64/Checks.antt =====
-- The checks of src/loader/elf64.cpp, and what a header that passes them satisfies.
use astraea.Prelude.{
  ℕ, ◌+◌, ◌*◌, ◌%◌, ◌≤◌, ◌<◌, ◌≡◌, ap, ◌≢◌, ◌⊎◌, inl, inr, true, Option, none, some, arith, ◌==◌,
  u64_max, ==_iff, Bool-cases,
}
use astraea.Prelude.Attempts.{Ensures}
use astraea.Loader.Headers.{ElfHeader, ProgramHeader}
use astraea.Loader.Elf64.{
  ElfParseProfile, generic, ps5_sce, ps5_marked_raw, supported_file_type, check_header, check_table,
  check_load,
}
use astraea.Loader.Elf64.Fields.{InFile, IsRead}
use astraea.Memory.Mapping.Segments.{IsLoad}

-- The types of file that a profile accepts.
abbrev pub AcceptsType : ElfParseProfile → ElfHeader → Type 0
AcceptsType generic h = (h.type ≡ 2) ⊎ (h.type ≡ 3)
AcceptsType ps5_sce h = (h.type ≡ 65040) ⊎ (h.type ≡ 65048)
AcceptsType ps5_marked_raw h = (h.type ≡ 3) × (h.os_abi ≡ 9) × (h.abi_version ≡ 2)

pub record IsHeader (profile : ElfParseProfile) (h : ElfHeader) : Type 0 where
  pub version : h.version ≡ 1
  pub machine : h.machine ≡ 62
  pub type : AcceptsType profile h
  pub size : h.header_size ≡ 64
  pub count : h.program_header_count ≢ 65535

supported_file_type-true :
    (h : ElfHeader) (profile : ElfParseProfile)
    → supported_file_type h.type h.os_abi h.abi_version profile ≡ true
    → AcceptsType profile h
unfolding supported_file_type
supported_file_type-true h generic e = ground arith
supported_file_type-true h ps5_sce e = ground arith
supported_file_type-true h ps5_marked_raw e = ground arith

pub check_header-Ensures :
    (h : ElfHeader) (profile : ElfParseProfile) (n : ℕ)
    → 64 ≤ n
    → Ensures (λ _. IsHeader profile h) (InFile n) (check_header h profile)
unfolding check_header
check_header-Ensures h profile n fits = ground (arith, supported_file_type-true h profile)

-- The table stands in the file.
abbrev pub TableFits : ElfHeader → ℕ → Type 0
TableFits h n = h.program_header_offset + h.program_header_count * 56 ≤ n

pub check_table-Ensures :
    (h : ElfHeader) (n : ℕ)
    → 64 ≤ n
    → n ≤ u64_max
    → h.program_header_count < 65536
    → Ensures (λ _. TableFits h n) (InFile n) (check_table h n)
unfolding check_table
check_table-Ensures h n fits small count = elim (Bool-cases (h.program_header_entry_size == 56)) [
  | inl e ↦
      let size = (==_iff h.program_header_entry_size 56).0 e in
      let table : h.program_header_count * h.program_header_entry_size
          ≡ h.program_header_count * 56 =
        ap (λ k. h.program_header_count * k) size in
      ground (arith, table)
  | inr e ↦ ground arith
]

-- The part of the segment that the file holds is inside it, and its addresses and file offsets
-- agree in the alignment.
pub record IsSegment (n : ℕ) (h : ProgramHeader) : Type 0 where
  pub load : IsLoad h
  pub file : (h.file_size ≡ 0) ⊎ (h.offset + h.file_size ≤ n)
  pub aligned : (h.alignment ≤ 1) ⊎ (h.virtual_address % h.alignment ≡ h.offset % h.alignment)

abbrev pub Above : Option ℕ → ProgramHeader → Type 0
Above none h = Unit {0}
Above (some previous) h = previous ≤ h.virtual_address

pub check_load-Ensures :
    (h : ProgramHeader) (at n index : ℕ) (previous : Option ℕ)
    → h.type ≡ 1
    → IsRead index h
    → n ≤ u64_max
    → at + 56 ≤ n
    → Ensures (λ _. IsSegment n h × Above previous h) (InFile n) (check_load h at n previous)
unfolding check_load
check_load-Ensures h at n index previous load r small fits = ground (arith)
