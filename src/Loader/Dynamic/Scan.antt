-- ===== src/Loader/Dynamic/Scan.antt =====
-- parse_dynamic_table ends at the first null entry, inside the segment and the file.
use astraea.Prelude.{
  ==→ne, ℕ, zero, suc, ◌+◌, ◌*◌, ◌/◌, ◌%◌, ◌^◌, ◌≤◌, ◌≡◌, refl, ap, ◌≢◌, ◌⊎◌, inl, inr, false, none,
  some, List, [], ◌∷◌, arith, ◌==◌, if◌then◌else◌, u64_max, ==_iff, Bool-cases, length, success,
  failure,
}
use astraea.Prelude.Attempts.{Ensures-failure, Attempt, ◌>>=◌, Ensures, Ensures->>=}
use astraea.Prelude.LittleEndian.{AllBytes, read_little_endian-lt}
use astraea.Loader.Headers.{ProgramHeader}
use astraea.Loader.Dynamic.{
  DynamicError, DynamicEntry, DynamicTable, missing_terminator, check_segment, read_entry,
  entries_from, parse_dynamic_table,
}

-- The entries are those of the segment from this index on, and end at the first null one.
abbrev pub EndsAtNull : List ℕ → ProgramHeader → ℕ → List DynamicEntry → Type 0
EndsAtNull bytes segment index [] = ⊥
EndsAtNull bytes segment index (e ∷ []) =
    (read_entry bytes segment index ≡ some (success e)) × (e.tag ≡ 0)
EndsAtNull bytes segment index (e ∷ f ∷ es) =
    (read_entry bytes segment index ≡ some (success e))
    × (e.tag ≢ 0)
    × EndsAtNull bytes segment (index + 1) (f ∷ es)

-- No entry of the segment is null, among this many from this index on.
abbrev pub NoNull : List ℕ → ProgramHeader → ℕ → ℕ → Type 0
NoNull bytes segment index zero = Unit
NoNull bytes segment index (suc rounds) =
    ((e : DynamicEntry) × (read_entry bytes segment index ≡ some (success e)) × (e.tag ≢ 0))
    × NoNull bytes segment (index + 1) rounds

pub record IsDynamic (bytes : List ℕ) (segment : ProgramHeader) (table : DynamicTable)
    : Type 0 where
  pub type : segment.type ≡ 2
  pub inside : segment.offset + segment.file_size ≤ length bytes
  pub entries : EndsAtNull bytes segment 0 table.entries
  pub bounded : length table.entries ≤ segment.file_size / 16

-- Every error names the segment's offset; one that names an entry says that none is null.
abbrev pub IsDynamicError : List ℕ → ProgramHeader → DynamicError → Type 0
IsDynamicError bytes segment e =
    (e.file_offset ≡ segment.offset)
    × ((e.entry_index ≡ none)
        ⊎ ((e.code ≡ missing_terminator)
            × (e.entry_index ≡ some (segment.file_size / 16))
            × NoNull bytes segment 0 (segment.file_size / 16)))

record IsChecked (segment : ProgramHeader) (n : ℕ) : Type 0 where
  type : segment.type ≡ 2
  inside : segment.offset + segment.file_size ≤ n

check_segment-Ensures :
    (bytes : List ℕ) (segment : ProgramHeader)
    → length bytes ≤ u64_max
    → Ensures
        (λ _. IsChecked segment (length bytes))
        (IsDynamicError bytes segment)
        (check_segment segment (length bytes))
unfolding check_segment
check_segment-Ensures bytes segment small = ground arith

read_entry-Ensures :
    (bytes : List ℕ) (segment : ProgramHeader) (index : ℕ)
    → AllBytes bytes
    → length bytes ≤ u64_max
    → segment.offset + (index + 1) * 16 ≤ length bytes
    → (e : DynamicEntry) × (read_entry bytes segment index ≡ some (success e))
unfolding read_entry
read_entry-Ensures bytes segment index ab small fits =
    let at = (segment.offset + index * 16 % 2 ^ 64) % 2 ^ 64 in
    let (tag, e, s) = read_little_endian-lt bytes at 8 ab (omega arith) in
    let (value, e', s') = read_little_endian-lt bytes ((at + 8) % 2 ^ 64) 8 ab (omega arith) in
    (record { tag = tag; value = value; index = index }, rw (read_entry, e, e') refl)

abbrev Rounds : List ℕ → ProgramHeader → ℕ → ℕ → List DynamicEntry → Type 0
Rounds bytes segment index rounds es = EndsAtNull bytes segment index es × (length es ≤ rounds)

abbrev NoneLeft : List ℕ → ProgramHeader → ℕ → ℕ → DynamicError → Type 0
NoneLeft bytes segment index rounds e =
    (e.file_offset ≡ segment.offset)
    × (e.code ≡ missing_terminator)
    × (e.entry_index ≡ some (index + rounds))
    × NoNull bytes segment index rounds

EndsAtNull-cons :
    (bytes : List ℕ) (segment : ProgramHeader) (index : ℕ) (e : DynamicEntry)
    (es : List DynamicEntry)
    → read_entry bytes segment index ≡ some (success e)
    → e.tag ≢ 0
    → EndsAtNull bytes segment (index + 1) es
    → EndsAtNull bytes segment index (e ∷ es)
EndsAtNull-cons bytes segment index e [] r t h = absurd h
EndsAtNull-cons bytes segment index e (f ∷ es) r t h = (r, t, h)

entries_from-Ensures :
    (bytes : List ℕ) (segment : ProgramHeader) (rounds index : ℕ)
    → AllBytes bytes
    → length bytes ≤ u64_max
    → segment.offset + (index + rounds) * 16 ≤ length bytes
    → Ensures
        (Rounds bytes segment index rounds)
        (NoneLeft bytes segment index rounds)
        (entries_from bytes segment rounds index)
unfolding entries_from
entries_from-Ensures bytes segment zero index ab small fits =
    (refl, refl, ap some (omega arith), tt)
entries_from-Ensures bytes segment (suc rounds) index ab small fits =
    let (e, here) = read_entry-Ensures bytes segment index ab small (omega arith) in
    let later = entries_from-Ensures bytes segment rounds (index + 1) ab small (omega arith) in
    rw (entries_from, here) (one_round e here (entries_from bytes segment rounds (index + 1)) later)
  where
    one_round :
        (e : DynamicEntry)
        → read_entry bytes segment index ≡ some (success e)
        → (r : Attempt (List DynamicEntry) DynamicError)
        → Ensures
            (Rounds bytes segment (index + 1) rounds)
            (NoneLeft bytes segment (index + 1) rounds)
            r
        → Ensures
            (Rounds bytes segment index (suc rounds))
            (NoneLeft bytes segment index (suc rounds))
            (if e.tag == 0 then some (success (e ∷ [])) else (r >>= λ es. some (success (e ∷ es))))
    one_round e here r h = elim (Bool-cases (e.tag == 0)) [
      | inl null ↦ rw null ((here, (==_iff e.tag 0).0 null), omega arith)
      | inr other ↦ rw other (go other r h)
    ]
      where
        go :
            (e.tag == 0) ≡ false
            → (r : Attempt (List DynamicEntry) DynamicError)
            → Ensures
                (Rounds bytes segment (index + 1) rounds)
                (NoneLeft bytes segment (index + 1) rounds)
                r
            → Ensures
                (Rounds bytes segment index (suc rounds))
                (NoneLeft bytes segment index (suc rounds))
                (r >>= λ es. some (success (e ∷ es)))
        go other none h = h
        go other (some (failure x)) (at, code, ix, left) =
            (at, code, rw ix (ap some (omega arith)), ((e, here, ==→ne e.tag 0 other), left))
        go other (some (success es)) (ends, n) =
            (EndsAtNull-cons bytes segment index e es here (==→ne e.tag 0 other) ends, omega arith)

-- Over a list of bytes with a 64-bit length, parse_dynamic_table ends inside the file and the
-- segment. When it succeeds, the segment is PT_DYNAMIC and stands in the file, and the entries are
-- the ones it holds, from the first on, up to the first null one and not past the segment's end.
-- When it fails, the error names the segment's offset; and if it names an entry, that is the number
-- of entries in the segment, of which none is null.
pub parse_dynamic_table_lem :
    (bytes : List ℕ) (segment : ProgramHeader)
    → AllBytes bytes
    → length bytes ≤ u64_max
    → Ensures
        (IsDynamic bytes segment)
        (IsDynamicError bytes segment)
        (parse_dynamic_table bytes segment)
unfolding parse_dynamic_table
parse_dynamic_table_lem bytes segment ab small =
    let n = segment.file_size / 16 in
    let Q = IsDynamicError bytes segment in
    let R = IsDynamic bytes segment in
    Ensures->>= (λ _. IsChecked segment (length bytes)) Q R _ _
      (check_segment-Ensures bytes segment small)
      (λ u e c.
        Ensures->>= (Rounds bytes segment 0 n) Q R _ _
          (Ensures-failure (Rounds bytes segment 0 n) (NoneLeft bytes segment 0 n) Q _
            (entries_from-Ensures bytes segment n 0 ab small (omega (arith, c.inside)))
            (λ x (at, code, ix, left). (at, inr (code, rw ix (ap some (omega arith)), left))))
          (λ es e' r. record { type = c.type; inside = c.inside; entries = r.0; bounded = r.1 }))
