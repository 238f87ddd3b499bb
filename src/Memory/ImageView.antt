-- ===== src/Memory/ImageView.antt =====
-- include/astraea/memory/initialized_image_view.hpp and src/memory/initialized_image_view.cpp: the
-- bytes that the mapped segments of a file put at guest addresses.
pub mod Create
pub mod Sources
pub mod Read
pub mod Copy
pub mod Totality
use astraea.Prelude.{
  ℕ, ◌+◌, ◌-◌, Bool, true, false, not, ◌&&◌, Option, none, some, List, [], ◌∷◌, Result, success,
  failure, ltb, leb, ◌==◌, if◌then◌else◌, u64_max, length, get_elem?, ◌>>=◌, ◌>>◌,
}
use astraea.Prelude.Sorting.{sort}
use astraea.Memory.Address.{GuestRange, contains, checked_add}
use astraea.Memory.Mapping.{MappingIntent, file, zero_fill, anonymous, mapping_intent_less}

pub data InitializedImageErrorCode : Type 0 where
  invalid_file_backing_range backing_size_mismatch unsupported_backing_kind :
      InitializedImageErrorCode
  unmapped_guest_address mapping_overlap_conflict output_size_mismatch : InitializedImageErrorCode
  host_size_unrepresentable : InitializedImageErrorCode

pub record InitializedImageError : Type 0 where
  pub code : InitializedImageErrorCode
  pub guest_address : Option ℕ
  pub first_source_index : Option ℕ
  pub second_source_index : Option ℕ
  pub file_offset : Option ℕ

-- make_error, with the defaults for what a call leaves out.
abbrev pub make_error : InitializedImageErrorCode → ℕ → InitializedImageError
make_error code address = record {
  code = code;
  guest_address = some address;
  first_source_index = none;
  second_source_index = none;
  file_offset = none;
}

abbrev pub error_at : InitializedImageErrorCode → ℕ → MappingIntent → InitializedImageError
error_at code address m = record (make_error code address) {
  first_source_index = some m.source_index;
}

abbrev pub backing_error : ℕ → MappingIntent → InitializedImageError
backing_error address m = record (error_at invalid_file_backing_range address m) {
  file_offset = some m.backing.file_offset;
}

unfoldable pub file_range_is_valid : MappingIntent → ℕ → Bool
file_range_is_valid m image_size =
    let offset = m.backing.file_offset in
    let size = m.backing.byte_count in
    if ltb (u64_max - size) offset
    then false
    else leb offset image_size && leb (offset + size) image_size

-- `kind`, the file offset of a byte if it comes from the file, and the intent's index.
pub data ResolvedSourceKind : Type 0 where
  from_file from_zero_fill : ResolvedSourceKind

pub record ResolvedSource : Type 0 where
  pub kind : ResolvedSourceKind
  pub file_offset : ℕ
  pub source_index : ℕ

unfoldable pub file_source_at : MappingIntent → ℕ → Result ResolvedSource InitializedImageError
file_source_at m address =
    let delta = address - m.range.base in
    let source : ResolvedSource = record {
      kind = from_file;
      file_offset = m.backing.file_offset + delta;
      source_index = m.source_index;
    } in
    if ltb (u64_max - delta) m.backing.file_offset
    then failure (backing_error address m)
    else success source

unfoldable pub source_at : MappingIntent → ℕ → Result ResolvedSource InitializedImageError
unfolding file_source_at
source_at m address = elim m.backing.kind [
  | zero_fill ↦
      success (record { kind = from_zero_fill; file_offset = 0; source_index = m.source_index })
  | file ↦ file_source_at m address
  | anonymous ↦ file_source_at m address
]

abbrev pub kinds_match : ResolvedSourceKind → ResolvedSourceKind → Bool → Bool
kinds_match from_file from_file same_offset = same_offset
kinds_match from_file from_zero_fill same_offset = false
kinds_match from_zero_fill from_file same_offset = false
kinds_match from_zero_fill from_zero_fill same_offset = true

unfoldable pub sources_match : ResolvedSource → ResolvedSource → Bool
sources_match lhs rhs = kinds_match lhs.kind rhs.kind (lhs.file_offset == rhs.file_offset)

-- The class holds the bytes of the file and the intents.
pub record InitializedImageView : Type 0 where
  pub image_bytes : List ℕ
  pub intents : List MappingIntent

-- One round of the loop of InitializedImageView::create.
unfoldable pub validate_intent : MappingIntent → ℕ → Result (Unit {0}) InitializedImageError
validate_intent m image_size =
    if not (m.backing.byte_count == m.range.size)
    then failure (error_at backing_size_mismatch m.range.base m)
    else (elim m.backing.kind [
      | file ↦
          if file_range_is_valid m image_size
          then success tt
          else failure (backing_error m.range.base m)
      | zero_fill ↦ success tt
      | anonymous ↦ failure (error_at unsupported_backing_kind m.range.base m)
    ])

unfoldable pub validate_intents :
    List MappingIntent → ℕ → Result (List MappingIntent) InitializedImageError
validate_intents [] image_size = success []
validate_intents (m ∷ ms) image_size = do
  validate_intent m image_size
  rest ← validate_intents ms image_size
  success (m ∷ rest)

unfoldable pub create :
    List ℕ → List MappingIntent → Result InitializedImageView InitializedImageError
create image_bytes intents = do
  validated ← validate_intents intents (length image_bytes)
  success (record { image_bytes = image_bytes; intents = sort mapping_intent_less validated })

abbrev pub conflict_error : ℕ → ResolvedSource → ResolvedSource → InitializedImageError
conflict_error address resolved candidate = record (make_error mapping_overlap_conflict address) {
  first_source_index = some resolved.source_index;
  second_source_index = some candidate.source_index;
}

-- A second source for the address has to be the first one.
unfoldable pub join_sources :
    ℕ → Option ResolvedSource → ResolvedSource → Result ResolvedSource InitializedImageError
join_sources address none candidate = success candidate
join_sources address (some resolved) candidate =
    if sources_match resolved candidate
    then success resolved
    else failure (conflict_error address resolved candidate)

-- The loop of read_byte, which stops at the first intent above the address.
unfoldable pub resolve :
    List MappingIntent
    → ℕ
    → Option ResolvedSource
    → Result (Option ResolvedSource) InitializedImageError
resolve [] address resolved = success resolved
resolve (m ∷ ms) address resolved =
    let skip = resolve ms address resolved in
    let join = do
      candidate ← source_at m address
      joined ← join_sources address resolved candidate
      resolve ms address (some joined)
    in if ltb address m.range.base
      then success resolved
      else if not (contains m.range address)
      then skip
      else join

-- `none` stands for an index outside `image_bytes`, which the source does not check for.
unfoldable pub source_byte : List ℕ → ResolvedSource → Option (Result ℕ InitializedImageError)
source_byte image_bytes resolved = elim resolved.kind [
  | from_zero_fill ↦ some (success 0)
  | from_file ↦ elim (get_elem? image_bytes resolved.file_offset) [
    | none ↦ none
    | some b ↦ some (success b)
  ]
]

unfoldable pub read_byte : InitializedImageView → ℕ → Option (Result ℕ InitializedImageError)
read_byte v address = elim (resolve v.intents address none) [
  | failure e ↦ some (failure e)
  | success none ↦ some (failure (make_error unmapped_guest_address address))
  | success (some resolved) ↦ source_byte v.image_bytes resolved
]

-- One round of the loop of copy_bytes over `o ∷ os`, from the byte that is read and from what the
-- later rounds make of `os`. A failure leaves what is left of `output` as it was.
unfoldable pub store_byte :
    ℕ
    → List ℕ
    → Option (Result ℕ InitializedImageError)
    → Option (Result (Unit {0}) InitializedImageError × List ℕ)
    → Option (Result (Unit {0}) InitializedImageError × List ℕ)
store_byte o os none rest = none
store_byte o os (some (failure e)) rest = some (failure e, o ∷ os)
store_byte o os (some (success b)) none = none
store_byte o os (some (success b)) (some (r, bs)) = some (r, b ∷ bs)

-- The loop of copy_bytes from index `i` on, over what is left of `output`.
unfoldable pub copy_loop :
    InitializedImageView
    → ℕ
    → ℕ
    → List ℕ
    → Option (Result (Unit {0}) InitializedImageError × List ℕ)
copy_loop v base i [] = some (success tt, [])
copy_loop v base i (o ∷ os) =
    let rest = copy_loop v base (i + 1) os in
    elim (checked_add base i) [
      | failure e ↦ some (failure (make_error unmapped_guest_address base), o ∷ os)
      | success address ↦ store_byte o os (read_byte v address) rest
    ]

unfoldable pub copy_bytes :
    InitializedImageView → GuestRange → List ℕ → Option (Result ℕ InitializedImageError × List ℕ)
copy_bytes v range output =
    let copied = copy_loop v range.base 0 output in
    if not (length output == range.size)
    then some (failure (make_error output_size_mismatch range.base), output)
    else (elim copied [
      | none ↦ none
      | some (failure e, bs) ↦ some (failure e, bs)
      | some (success u, bs) ↦ some (success range.size, bs)
    ])
