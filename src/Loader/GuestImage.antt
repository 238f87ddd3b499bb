-- ===== src/Loader/GuestImage.antt =====
-- src/loader/guest_image.cpp: build_guest_image_impl from the file to the initialized image view.
-- Its later steps, on the dynamic table, the TLS template and the stack, are outside this module.
pub mod Conflicts
pub mod Clashes
pub mod Errors
pub mod Expected
pub mod Build
use astraea.Prelude.{
  ℕ, ◌+◌, ◌-◌, max, Bool, true, false, not, ◌||◌, Option, none, some, List, [], ◌∷◌, ◌++◌, ltb,
  ◌==◌, if◌then◌else◌, u64_max, Result, success, failure,
}
use astraea.Prelude.Attempts.{Attempt, ◌>>=◌, ◌>>◌}
use astraea.Prelude.Sorting.{sort}
use astraea.Loader.Headers.{ProgramHeader, ElfImage}
use astraea.Loader.Elf64.{ElfError, ElfParseProfile, parse_elf64}
use astraea.Memory.Address.{GuestRange, contains, overlaps}
use astraea.Memory.Mapping.{
  MappingIntent, MappingError, mapping_intents_from_load, mapping_intent_less, same_kind, anonymous,
  zero_fill,
}
use astraea.Memory.ImageView.{InitializedImageView, InitializedImageError, create}

pub data GuestImageErrorCode : Type 0 where
  elf_parse_failure mapping_failure initialized_image_failure : GuestImageErrorCode
  duplicate_dynamic_segment mapping_overlap_conflict : GuestImageErrorCode
  initial_stack_overlaps_load_mapping dynamic_parse_failure : GuestImageErrorCode
  dynamic_metadata_failure dynamic_symbol_failure dynamic_relocation_failure : GuestImageErrorCode
  tls_failure initial_stack_failure host_allocation_failure : GuestImageErrorCode
  host_size_unrepresentable : GuestImageErrorCode

-- The alternatives of the variant that these steps use.
pub data GuestImageErrorCause : Type 0 where
  no_cause : GuestImageErrorCause
  elf_error : ElfError → GuestImageErrorCause
  mapping_error : MappingError → GuestImageErrorCause
  view_error : InitializedImageError → GuestImageErrorCause

pub record GuestImageError : Type 0 where
  pub code : GuestImageErrorCode
  pub cause : GuestImageErrorCause
  pub source_program_header_index : Option ℕ
  pub conflicting_program_header_index : Option ℕ

abbrev pub image_error :
    GuestImageErrorCode → GuestImageErrorCause → Option ℕ → Option ℕ → GuestImageError
image_error code cause source conflicting = record {
  code = code;
  cause = cause;
  source_program_header_index = source;
  conflicting_program_header_index = conflicting;
}

-- checked_add, whose failure the caller answers.
abbrev pub add_overflows : ℕ → ℕ → Bool
add_overflows lhs rhs = ltb (u64_max - rhs) lhs

unfoldable pub initialized_overlap_conflicts : MappingIntent → MappingIntent → Bool
initialized_overlap_conflicts lhs rhs =
    let overlap_base = max lhs.range.base rhs.range.base in
    let lhs_delta = overlap_base - lhs.range.base in
    let rhs_delta = overlap_base - rhs.range.base in
    if not (overlaps lhs.range rhs.range)
    then false
    else if same_kind lhs.backing.kind anonymous || same_kind rhs.backing.kind anonymous
    then true
    else if not (same_kind lhs.backing.kind rhs.backing.kind)
    then true
    else if same_kind lhs.backing.kind zero_fill
    then false
    else if add_overflows lhs.backing.file_offset lhs_delta
        || add_overflows rhs.backing.file_offset rhs_delta
    then true
    else not (lhs.backing.file_offset + lhs_delta == rhs.backing.file_offset + rhs_delta)

-- The inner loop of first_mapping_conflict, over the mappings after `lhs`.
unfoldable pub conflict_with : MappingIntent → List MappingIntent → Option (ℕ × ℕ)
conflict_with lhs [] = none
conflict_with lhs (rhs ∷ later) =
    let rest = conflict_with lhs later in
    if not (contains lhs.range rhs.range.base)
    then none
    else if initialized_overlap_conflicts lhs rhs
    then some (lhs.source_index, rhs.source_index)
    else rest

unfoldable pub first_mapping_conflict : List MappingIntent → Option (ℕ × ℕ)
first_mapping_conflict [] = none
first_mapping_conflict (m ∷ ms) =
    let rest = first_mapping_conflict ms in
    elim (conflict_with m ms) [ none ↦ rest | some pair ↦ some pair ]

unfoldable pub first_stack_overlap : GuestRange → List MappingIntent → Option ℕ
first_stack_overlap stack_storage [] = none
first_stack_overlap stack_storage (m ∷ ms) =
    let rest = first_stack_overlap stack_storage ms in
    if overlaps stack_storage m.range then some m.source_index else rest

abbrev or_mapping_failure :
    Result (List MappingIntent) MappingError → Attempt (List MappingIntent) GuestImageError
or_mapping_failure (success ms) = some (success ms)
or_mapping_failure (failure e) = some (
    failure (
      image_error mapping_failure (mapping_error e) (some e.first_source_index)
        (some e.second_source_index)))

-- The loop that collects the intents of the segments of type PT_LOAD.
unfoldable pub load_mappings : List ProgramHeader → Attempt (List MappingIntent) GuestImageError
load_mappings [] = some (success [])
load_mappings (h ∷ hs) =
    let rest = load_mappings hs in
    if not (h.type == 1) then rest else (do
      intents ← or_mapping_failure (mapping_intents_from_load h)
      later ← rest
      some (success (intents ++ later)))

unfoldable pub check_conflict : List MappingIntent → Attempt (Unit {0}) GuestImageError
check_conflict mappings = elim (first_mapping_conflict mappings) [
  | none ↦ some (success tt)
  | some (first, second) ↦
      some (failure (image_error mapping_overlap_conflict no_cause (some first) (some second)))
]

unfoldable pub check_stack : GuestRange → List MappingIntent → Attempt (Unit {0}) GuestImageError
check_stack storage mappings = elim (first_stack_overlap storage mappings) [
  | none ↦ some (success tt)
  | some index ↦
      some (failure (image_error initial_stack_overlaps_load_mapping no_cause (some index) none))
]

-- A failure of the parser, in the error of this file.
abbrev pub wrap_parse : Attempt ElfImage ElfError → Attempt ElfImage GuestImageError
wrap_parse none = none
wrap_parse (some (success image)) = some (success image)
wrap_parse (some (failure e)) =
    some (failure (image_error elf_parse_failure (elf_error e) none none))

unfoldable pub parse_image : List ℕ → ElfParseProfile → Attempt ElfImage GuestImageError
parse_image bytes profile = wrap_parse (parse_elf64 bytes profile)

unfoldable pub create_view :
    List ℕ → List MappingIntent → Attempt InitializedImageView GuestImageError
create_view bytes mappings = elim (create bytes mappings) [
  | success v ↦ some (success v)
  | failure e ↦ some (failure (image_error initialized_image_failure (view_error e) none none))
]

-- What the later steps work on.
pub record MappedImage : Type 0 where
  pub elf : ElfImage
  pub mappings : List MappingIntent
  pub view : InitializedImageView

unfoldable pub build_mapped_image :
    List ℕ → ElfParseProfile → GuestRange → Attempt MappedImage GuestImageError
build_mapped_image bytes profile storage = do
  elf ← parse_image bytes profile
  intents ← load_mappings elf.program_headers
  let mappings = sort mapping_intent_less intents
  check_conflict mappings
  check_stack storage mappings
  view ← create_view bytes mappings
  some (success (record { elf = elf; mappings = mappings; view = view }))
