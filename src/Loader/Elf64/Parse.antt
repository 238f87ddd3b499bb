-- ===== src/Loader/Elf64/Parse.antt =====
-- parse_elf64 stays inside its file, and what it parses is what the file holds.
use mathlib.Core.Path.{subst}
use astraea.Prelude.{
  ==→ne, ℕ, zero, suc, ◌+◌, ◌*◌, ◌%◌, ◌^◌, ◌≤◌, ◌<◌, ◌≡◌, refl, sym, ap, ◌≢◌, ◌⊎◌, inl, inr, Option,
  none, some, List, [], ◌∷◌, arith, ◌==◌, u64_max, ==_iff, Bool-cases, length, All, success,
}
use astraea.Prelude.Attempts.{Ensures-weaken, Ensures, Ensures->>=}
use astraea.Prelude.LittleEndian.{AllBytes}
use astraea.Loader.Headers.{ElfHeader, ProgramHeader, ElfImage}
use astraea.Loader.Elf64.{
  ElfParseProfile, next_load_address, read_header, read_program_header, program_headers_from,
  parse_program_headers, parse_elf64,
}
use astraea.Loader.Elf64.Fields.{
  InFile, IsRead, IsIdent, check_ident-Ensures, read_header-Ensures, CountIsSmall,
  read_program_header-Ensures,
}
use astraea.Loader.Elf64.Checks.{
  IsHeader, IsSegment, Above, TableFits, check_header-Ensures, check_table-Ensures,
  check_load-Ensures,
}

-- What is asked of a program header holds if it is PT_LOAD.
abbrev pub IfLoad : (ProgramHeader → Type 0) → ProgramHeader → Type 0
IfLoad P h = (h.type ≢ 1) ⊎ P h

-- The program headers are those of the table, from this index on.
abbrev pub EntriesAt : List ℕ → ℕ → ℕ → List ProgramHeader → Type 0
EntriesAt bytes table index [] = Unit
EntriesAt bytes table index (h ∷ hs) =
    (read_program_header bytes (table + index * 56) index ≡ some (success h))
    × EntriesAt bytes table (index + 1) hs

-- The segments to load stand in the order of their addresses.
abbrev pub LoadsInOrder : List ProgramHeader → Type 0
LoadsInOrder [] = Unit
LoadsInOrder (h ∷ hs) =
    IfLoad (λ h. All (IfLoad (Above (some h.virtual_address))) hs) h × LoadsInOrder hs

pub record IsTable (bytes : List ℕ) (table index : ℕ) (hs : List ProgramHeader) : Type 0 where
  pub entries : EntriesAt bytes table index hs
  pub segments : All (IfLoad (IsSegment (length bytes))) hs
  pub ordered : LoadsInOrder hs

-- What one round keeps: the header's own promise, and a previous address that bounds what follows.
abbrev Passes : ℕ → Option ℕ → ProgramHeader → Option ℕ → Type 0
Passes n previous h next =
    ((h.type ≢ 1) × (next ≡ previous))
    ⊎ (IsSegment n h × Above previous h × (next ≡ some h.virtual_address))

next_load_address-Ensures :
    (h : ProgramHeader) (at n index : ℕ) (previous : Option ℕ)
    → IsRead index h
    → n ≤ u64_max
    → at + 56 ≤ n
    → Ensures (Passes n previous h) (InFile n) (next_load_address h at n previous)
unfolding next_load_address
next_load_address-Ensures h at n index previous r small fits = elim (Bool-cases (h.type == 1)) [
  | inl e ↦
      let load = (==_iff h.type 1).0 e in
      rw e (
        Ensures->>= (λ _. IsSegment n h × Above previous h) (InFile n) (Passes n previous h) _ _
          (check_load-Ensures h at n index previous load r small fits)
          (λ u e' p. inr (p.0, p.1, refl)))
  | inr e ↦ rw e (inl (==→ne h.type 1 e, refl))
]

Above-trans :
    (previous : Option ℕ) (h k : ProgramHeader)
    → Above previous h
    → IfLoad (Above (some h.virtual_address)) k
    → IfLoad (Above previous) k
Above-trans none h k a b = ground arith
Above-trans (some p) h k a b = ground arith

All-Above :
    (previous : Option ℕ) (h : ProgramHeader) (hs : List ProgramHeader)
    → Above previous h
    → All (IfLoad (Above (some h.virtual_address))) hs
    → All (IfLoad (Above previous)) hs
All-Above previous h [] a b = tt
All-Above previous h (k ∷ ks) a b = (Above-trans previous h k a b.0, All-Above previous h ks a b.1)

abbrev Rounds : List ℕ → ℕ → ℕ → ℕ → Option ℕ → List ProgramHeader → Type 0
Rounds bytes table rounds index previous hs =
    (length hs ≡ rounds) × IsTable bytes table index hs × All (IfLoad (Above previous)) hs

one_round :
    (bytes : List ℕ) (table rounds index : ℕ) (previous next : Option ℕ) (h : ProgramHeader)
    (hs : List ProgramHeader)
    → read_program_header bytes (table + index * 56) index ≡ some (success h)
    → Passes (length bytes) previous h next
    → Rounds bytes table rounds (index + 1) next hs
    → Rounds bytes table (suc rounds) index previous (h ∷ hs)
one_round bytes table rounds index previous next h hs e (inl (other, same))
      (count, table_lem, above) =
    (
      ap (λ n. suc n) count,
      record {
        entries = (e, table_lem.entries);
        segments = (inl other, table_lem.segments);
        ordered = (inl other, table_lem.ordered);
      },
      (inl other, subst (λ p. All (IfLoad (Above p)) hs) same above),
    )
one_round bytes table rounds index previous next h hs e (inr (segment, a, same))
      (count, table_lem, above) =
    let above_h = subst (λ p. All (IfLoad (Above p)) hs) same above in
    (
      ap (λ n. suc n) count,
      record {
        entries = (e, table_lem.entries);
        segments = (inr segment, table_lem.segments);
        ordered = (inr above_h, table_lem.ordered);
      },
      (inr a, All-Above previous h hs a above_h),
    )

pub program_headers_from-Ensures :
    (bytes : List ℕ) (table rounds index : ℕ) (previous : Option ℕ)
    → AllBytes bytes
    → length bytes ≤ u64_max
    → table + (index + rounds) * 56 ≤ length bytes
    → Ensures
        (Rounds bytes table rounds index previous)
        (InFile (length bytes))
        (program_headers_from bytes table rounds index previous)
unfolding program_headers_from
program_headers_from-Ensures bytes table zero index previous ab small fits =
    (refl, record { entries = tt; segments = tt; ordered = tt }, tt)
program_headers_from-Ensures bytes table (suc rounds) index previous ab small fits =
    let n = length bytes in
    let at = table + index * 56 in
    let inside : at + 56 ≤ length bytes = omega arith in
    let plain : at % 2 ^ 64 ≡ at = omega arith in
    let next_fits : table + (index + 1 + rounds) * 56 ≤ length bytes = omega arith in
    let Q = InFile n in
    let R = Rounds bytes table (suc rounds) index previous in
    let later = λ (next : Option ℕ).
      program_headers_from-Ensures bytes table rounds (index + 1) next ab small next_fits in
    rw (program_headers_from, plain)
      (Ensures->>= (IsRead index) Q R _ _
        (read_program_header-Ensures bytes at index ab small inside)
        (λ h e r.
          Ensures->>= (Passes n previous h) Q R _ _
            (next_load_address-Ensures h at n index previous r small inside)
            (λ next e' p.
              Ensures->>= (Rounds bytes table rounds (index + 1) next) Q R _ _ (later next)
                (λ hs e'' q. one_round bytes table rounds index previous next h hs e p q))))

-- What parse_elf64 promises of an image: its header and its program headers are those that stand in
-- the bytes, of a kind that the profile accepts, with segments that lie in the file and in order.
pub record IsElf (bytes : List ℕ) (profile : ElfParseProfile) (image : ElfImage) : Type 0 where
  pub ident : IsIdent bytes
  pub header_bytes : read_header bytes ≡ some (success image.header)
  pub header : IsHeader profile image.header
  pub count : length image.program_headers ≡ image.header.program_header_count
  pub table : IsTable bytes image.header.program_header_offset 0 image.program_headers

abbrev Table : List ℕ → ElfHeader → List ProgramHeader → Type 0
Table bytes h hs = (length hs ≡ h.program_header_count) × IsTable bytes h.program_header_offset 0 hs

parse_program_headers-Ensures :
    (bytes : List ℕ) (h : ElfHeader)
    → AllBytes bytes
    → length bytes ≤ u64_max
    → 64 ≤ length bytes
    → h.program_header_count < 65536
    → Ensures (Table bytes h) (InFile (length bytes)) (parse_program_headers bytes h)
unfolding parse_program_headers
parse_program_headers-Ensures bytes h ab small fits count =
    let Q = InFile (length bytes) in
    let offset = h.program_header_offset in
    elim (Bool-cases (h.program_header_count == 0)) [
      | inl e ↦
          let zero_count = (==_iff h.program_header_count 0).0 e in
          rw e (sym zero_count, record { entries = tt; segments = tt; ordered = tt })
      | inr e ↦ rw e (
          Ensures->>= (λ _. TableFits h (length bytes)) Q (Table bytes h) _ _
            (check_table-Ensures h (length bytes) fits small count)
            (λ u e' t.
              Ensures-weaken (Rounds bytes offset h.program_header_count 0 none) (Table bytes h) Q _
                (program_headers_from-Ensures bytes offset h.program_header_count 0 none ab small
                  (omega (arith, t)))
                (λ hs r. (r.0, r.1))))
    ]

-- Over a list of bytes with a 64-bit length, parse_elf64 never reads outside it. When it succeeds,
-- the bytes begin with the identification of a 64-bit little-endian ELF file; the header is the one
-- that the bytes hold, for x86-64 and of a type that the profile accepts; there are as many program
-- headers as it says, each the one that the table holds at its index; and each PT_LOAD one has a
-- file part inside the file, sizes in order, 64-bit addresses that agree with its file offset in
-- the alignment, and an address not below those of the PT_LOAD ones before it. When it fails, the
-- error names an offset of the file or its end.
pub parse_elf64_lem :
    (bytes : List ℕ) (profile : ElfParseProfile)
    → AllBytes bytes
    → length bytes ≤ u64_max
    → Ensures (IsElf bytes profile) (InFile (length bytes)) (parse_elf64 bytes profile)
unfolding parse_elf64
parse_elf64_lem bytes profile ab small =
    let n = length bytes in
    let Q = InFile n in
    let R = IsElf bytes profile in
    Ensures->>= (λ _. IsIdent bytes) Q R _ _ (check_ident-Ensures bytes)
      (λ u e0 ident.
        Ensures->>= CountIsSmall Q R _ _ (read_header-Ensures bytes ab ident.0) (λ h e count.
          Ensures->>= (λ _. IsHeader profile h) Q R _ _ (check_header-Ensures h profile n ident.0)
            (λ u' e1 header.
              Ensures->>= (Table bytes h) Q R _ _
                (parse_program_headers-Ensures bytes h ab small ident.0 count)
                (λ hs e2 t. record {
                  ident = ident;
                  header_bytes = e;
                  header = header;
                  count = t.0;
                  table = t.1;
                }))))
