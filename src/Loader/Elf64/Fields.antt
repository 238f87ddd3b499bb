-- ===== src/Loader/Elf64/Fields.antt =====
-- The reads of src/loader/elf64.cpp stay inside the file, and the identification bytes that pass.
use astraea.Prelude.{
  ℕ, ◌+◌, ◌%◌, ◌^◌, ◌≤◌, ◌<◌, ◌≡◌, refl, some, List, [], ◌∷◌, arith, u64_max, length, get_elem?,
  take, get_elem?-lt,
}
use astraea.Prelude.Attempts.{Attempt, ◌>>=◌, read, Ensures}
use astraea.Prelude.LittleEndian.{Ensures-field, AllBytes}
use astraea.Loader.Headers.{ElfHeader, ProgramHeader}
use astraea.Loader.Elf64.{ElfError, check_ident, read_header, read_program_header, check_magic}

-- An error names an offset of the file, or its end.
abbrev pub InFile : ℕ → ElfError → Type 0
InFile n e = e.file_offset ≤ n

module _ {A : Type 0} (P : A → Type 0) (Q : ElfError → Type 0) (bytes : List ℕ) where
  pub Ensures-byte :
      (i : ℕ) (f : ℕ → Attempt A ElfError)
      → i < length bytes
      → ((v : ℕ) → get_elem? bytes i ≡ some v → Ensures P Q (f v))
      → Ensures P Q (read (get_elem? bytes i) >>= f)
  Ensures-byte i f inside k = let (v, e) = get_elem?-lt bytes i inside in rw e (k v e)

-- A 16-bit number of program headers.
abbrev pub CountIsSmall : ElfHeader → Type 0
CountIsSmall h = h.program_header_count < 65536

pub read_header-Ensures :
    (bytes : List ℕ)
    → AllBytes bytes
    → 64 ≤ length bytes
    → Ensures CountIsSmall (InFile (length bytes)) (read_header bytes)
unfolding read_header
read_header-Ensures bytes h fits =
    let P = CountIsSmall in
    let Q = InFile (length bytes) in
    Ensures-byte P Q bytes 7 _ (omega arith) (λ os_abi e.
      Ensures-byte P Q bytes 8 _ (omega arith) (λ abi_version e.
        Ensures-field P Q bytes 16 2 _ h (omega arith) (λ type at_type s.
          Ensures-field P Q bytes 18 2 _ h (omega arith) (λ v18 at_v18 s18.
            Ensures-field P Q bytes 20 4 _ h (omega arith) (λ v20 at_v20 s20.
              Ensures-field P Q bytes 24 8 _ h (omega arith) (λ v24 at_v24 s24.
                Ensures-field P Q bytes 32 8 _ h (omega arith) (λ v32 at_v32 s32.
                  Ensures-field P Q bytes 40 8 _ h (omega arith) (λ v40 at_v40 s40.
                    Ensures-field P Q bytes 48 4 _ h (omega arith) (λ v48 at_v48 s48.
                      Ensures-field P Q bytes 52 2 _ h (omega arith) (λ v52 at_v52 s52.
                        Ensures-field P Q bytes 54 2 _ h (omega arith) (λ v54 at_v54 s54.
                          Ensures-field P Q bytes 56 2 _ h (omega arith) (λ v56 at_v56 s56.
                            Ensures-field P Q bytes 58 2 _ h (omega arith) (λ v58 at_v58 s58.
                              Ensures-field P Q bytes 60 2 _ h (omega arith) (λ v60 at_v60 s60.
                                Ensures-field P Q bytes 62 2 _ h (omega arith)
                                  (λ v62 at_v62 s62. omega (arith, s56))))))))))))))))

-- A header that was read has 64-bit fields and the index that was asked for.
pub record IsRead (index : ℕ) (h : ProgramHeader) : Type 0 where
  pub index_lem : h.index ≡ index
  pub address : h.virtual_address ≤ u64_max
  pub file_size : h.file_size ≤ u64_max
  pub memory_size : h.memory_size ≤ u64_max

pub read_program_header-Ensures :
    (bytes : List ℕ) (at index : ℕ)
    → AllBytes bytes
    → length bytes ≤ u64_max
    → at + 56 ≤ length bytes
    → Ensures (IsRead index) (InFile (length bytes)) (read_program_header bytes at index)
unfolding read_program_header
read_program_header-Ensures bytes at index h small fits =
    let P = IsRead index in
    let Q = InFile (length bytes) in
    Ensures-field P Q bytes at 4 _ h (omega arith) (λ type at_type s.
      Ensures-field P Q bytes ((at + 4) % 2 ^ 64) 4 _ h (omega arith) (λ v4 at_v4 s4.
        Ensures-field P Q bytes ((at + 8) % 2 ^ 64) 8 _ h (omega arith) (λ v8 at_v8 s8.
          Ensures-field P Q bytes ((at + 16) % 2 ^ 64) 8 _ h (omega arith) (λ v16 at_v16 s16.
            Ensures-field P Q bytes ((at + 24) % 2 ^ 64) 8 _ h (omega arith) (λ v24 at_v24 s24.
              Ensures-field P Q bytes ((at + 32) % 2 ^ 64) 8 _ h (omega arith) (λ v32 at_v32 s32.
                Ensures-field P Q bytes ((at + 40) % 2 ^ 64) 8 _ h (omega arith) (λ v40 at_v40 s40.
                  Ensures-field P Q bytes ((at + 48) % 2 ^ 64) 8 _ h (omega arith)
                    (λ v48 at_v48 s48. record {
                      index_lem = refl;
                      address = omega (arith, s16);
                      file_size = omega (arith, s32);
                      memory_size = omega (arith, s40);
                    }))))))))

-- The identification bytes that pass: the magic, 64-bit, little-endian, the current version.
abbrev pub IsIdent : List ℕ → Type 0
IsIdent bytes = (64 ≤ length bytes) × (take 7 bytes ≡ 127 ∷ 69 ∷ 76 ∷ 70 ∷ 2 ∷ 1 ∷ 1 ∷ [])

check_ident-IsIdent :
    (b0 b1 b2 b3 b4 b5 b6 : ℕ) (rest : List ℕ)
    → let bytes = b0 ∷ b1 ∷ b2 ∷ b3 ∷ b4 ∷ b5 ∷ b6 ∷ rest in
      Ensures (λ _. IsIdent bytes) (InFile (length bytes)) (check_ident bytes)
unfolding check_ident check_magic
check_ident-IsIdent b0 b1 b2 b3 b4 b5 b6 rest = ground arith

pub check_ident-Ensures :
    (bytes : List ℕ) → Ensures (λ _. IsIdent bytes) (InFile (length bytes)) (check_ident bytes)
unfolding check_ident
check_ident-Ensures [] = omega arith
check_ident-Ensures (b0 ∷ []) = omega arith
check_ident-Ensures (b0 ∷ b1 ∷ []) = omega arith
check_ident-Ensures (b0 ∷ b1 ∷ b2 ∷ []) = omega arith
check_ident-Ensures (b0 ∷ b1 ∷ b2 ∷ b3 ∷ []) = omega arith
check_ident-Ensures (b0 ∷ b1 ∷ b2 ∷ b3 ∷ b4 ∷ []) = omega arith
check_ident-Ensures (b0 ∷ b1 ∷ b2 ∷ b3 ∷ b4 ∷ b5 ∷ []) = omega arith
check_ident-Ensures (b0 ∷ b1 ∷ b2 ∷ b3 ∷ b4 ∷ b5 ∷ b6 ∷ rest) =
    check_ident-IsIdent b0 b1 b2 b3 b4 b5 b6 rest
