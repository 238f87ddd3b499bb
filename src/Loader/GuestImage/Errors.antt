-- ===== src/Loader/GuestImage/Errors.antt =====
-- The errors of build_guest_image_impl up to the view, and what causes them.
use astraea.Prelude.{
  ℕ, ◌≤◌, ◌≡◌, refl, ap, ◌⊎◌, inl, inr, true, false, none, some, List, [], ◌∷◌, arith, u64_max,
  Bool-cases, Option-cases, length, All, Any, Any-map, success, failure,
}
use astraea.Prelude.Attempts.{Attempt, Ensures}
use astraea.Prelude.LittleEndian.{AllBytes}
use astraea.Prelude.Sorting.{sort, sort-All, sort-Any-inv}
use astraea.Loader.Headers.{ElfImage}
use astraea.Loader.Elf64.{ElfParseProfile, ElfError, parse_elf64}
use astraea.Loader.Elf64.Fields.{InFile}
use astraea.Loader.Elf64.Parse.{IsElf, parse_elf64_lem}
use astraea.Memory.Address.{GuestRange, contains, overlaps}
use astraea.Memory.Address.Ranges.{overlaps_iff}
use astraea.Memory.Mapping.{MappingIntent, mapping_intent_less}
use astraea.Memory.ImageView.Create.{IsBacked}
use astraea.Loader.GuestImage.{
  GuestImageError, elf_error, elf_parse_failure, mapping_overlap_conflict,
  initial_stack_overlaps_load_mapping, parse_image, wrap_parse, check_conflict, check_stack,
  first_mapping_conflict, first_stack_overlap,
}
use astraea.Loader.GuestImage.Expected.{all_intents}
use astraea.Loader.GuestImage.Clashes.{Differ, Pair, first_mapping_conflict-Pair, unsorted}

-- The error names two mappings that give one address different sources.
abbrev pub IsConflict : List MappingIntent → GuestImageError → Type 0
IsConflict ms e =
    (e.code ≡ mapping_overlap_conflict)
    × Any
        (λ m.
          Any
            (λ k.
              (e.source_program_header_index ≡ some m.source_index)
              × (e.conflicting_program_header_index ≡ some k.source_index)
              × Differ m k)
            ms)
        ms

-- The error names a mapping that shares an address with the stack's storage.
abbrev pub IsStackOverlap : GuestRange → List MappingIntent → GuestImageError → Type 0
IsStackOverlap storage ms e =
    (e.code ≡ initial_stack_overlaps_load_mapping)
    × Any
        (λ m.
          (e.source_program_header_index ≡ some m.source_index)
          × ((a : ℕ) × (contains storage a ≡ true) × (contains m.range a ≡ true)))
        ms

-- The error is that of the parser.
abbrev pub IsUnparsed : List ℕ → ElfParseProfile → GuestImageError → Type 0
IsUnparsed bytes profile e =
    (x : ElfError) × (parse_elf64 bytes profile ≡ some (failure x))
    × (e.code ≡ elf_parse_failure)
    × (e.cause ≡ elf_error x)

-- The failures that a file can cause, with their causes.
abbrev pub IsFileError : List ℕ → ElfParseProfile → GuestRange → GuestImageError → Type 0
IsFileError bytes profile storage e =
    IsUnparsed bytes profile e
    ⊎ ((elf : ElfImage) × (parse_elf64 bytes profile ≡ some (success elf))
        × (IsConflict (all_intents elf.program_headers) e
            ⊎ IsStackOverlap storage (all_intents elf.program_headers) e))

pub check_conflict-Ensures :
    (n : ℕ) (ms : List MappingIntent)
    → n ≤ u64_max
    → All (IsBacked n) ms
    → Ensures
        (λ _. first_mapping_conflict (sort mapping_intent_less ms) ≡ none)
        (IsConflict ms)
        (check_conflict (sort mapping_intent_less ms))
unfolding check_conflict
check_conflict-Ensures n ms small backed =
    let sorted = sort mapping_intent_less ms in
    elim (Option-cases (first_mapping_conflict sorted)) [
      | inl e ↦ rw (check_conflict, e) refl
      | inr ((i, j), e) ↦
          (let found = unsorted n small i j ms (
              first_mapping_conflict-Pair n small i j sorted
                (sort-All mapping_intent_less (IsBacked n) ms backed) e) in
            rw (check_conflict, e)
              (
                refl,
                Any-map (λ m. Any (Pair i j m) ms)
                    (λ m.
                      Any
                        (λ k.
                          (some i ≡ some m.source_index)
                          × (some j ≡ some k.source_index)
                          × Differ m k)
                        ms)
                    ms (λ m p. Any-map (Pair i j m) _ ms (λ k q. (ap some q.0, ap some q.1, q.2)) p)
                    found,
              ))
    ]

abbrev SharesStack : GuestRange → ℕ → MappingIntent → Type 0
SharesStack storage i m =
    (i ≡ m.source_index) × ((a : ℕ) × (contains storage a ≡ true) × (contains m.range a ≡ true))

first_stack_overlap-some :
    (storage : GuestRange) (i : ℕ) (ms : List MappingIntent)
    → first_stack_overlap storage ms ≡ some i
    → Any (SharesStack storage i) ms
unfolding first_stack_overlap
first_stack_overlap-some storage i [] e = cc
first_stack_overlap-some storage i (m ∷ ms) e = elim (Bool-cases (overlaps storage m.range)) [
  | inl o ↦ inl (ground arith, (overlaps_iff storage m.range).0 o)
  | inr o ↦ inr (first_stack_overlap-some storage i ms (ground arith))
]

first_stack_overlap-none :
    (storage : GuestRange) (ms : List MappingIntent)
    → first_stack_overlap storage ms ≡ none
    → All (λ m. overlaps storage m.range ≡ false) ms
unfolding first_stack_overlap
first_stack_overlap-none storage [] e = tt
first_stack_overlap-none storage (m ∷ ms) e = elim (Bool-cases (overlaps storage m.range)) [
  | inl o ↦ ground arith
  | inr o ↦ (o, first_stack_overlap-none storage ms (ground arith))
]

pub check_stack-Ensures :
    (storage : GuestRange) (ms : List MappingIntent)
    → Ensures
        (λ _. All (λ m. overlaps storage m.range ≡ false) (sort mapping_intent_less ms))
        (IsStackOverlap storage ms)
        (check_stack storage (sort mapping_intent_less ms))
unfolding check_stack
check_stack-Ensures storage ms =
    let sorted = sort mapping_intent_less ms in
    elim (Option-cases (first_stack_overlap storage sorted)) [
      | inl e ↦ rw (check_stack, e) (first_stack_overlap-none storage sorted e)
      | inr (i, e) ↦
          rw (check_stack, e)
            (
              refl,
              Any-map (SharesStack storage i) _ ms (λ m q. (ap some q.0, q.1))
                  (sort-Any-inv mapping_intent_less (SharesStack storage i) ms
                    (first_stack_overlap-some storage i sorted e)),
            )
    ]

pub parse_image-Ensures :
    (bytes : List ℕ) (profile : ElfParseProfile)
    → AllBytes bytes
    → length bytes ≤ u64_max
    → Ensures
        (λ elf. IsElf bytes profile elf × (parse_elf64 bytes profile ≡ some (success elf)))
        (IsUnparsed bytes profile)
        (parse_image bytes profile)
unfolding parse_image
parse_image-Ensures bytes profile ab small =
    wrap (parse_elf64 bytes profile) refl (parse_elf64_lem bytes profile ab small)
  where
    wrap :
        (r : Attempt ElfImage ElfError)
        → parse_elf64 bytes profile ≡ r
        → Ensures (IsElf bytes profile) (InFile (length bytes)) r
        → Ensures
            (λ elf. IsElf bytes profile elf × (parse_elf64 bytes profile ≡ some (success elf)))
            (IsUnparsed bytes profile)
            (wrap_parse r)
    wrap none e h = h
    wrap (some (success image)) e h = (h, e)
    wrap (some (failure x)) e h = (x, e, refl, refl)
