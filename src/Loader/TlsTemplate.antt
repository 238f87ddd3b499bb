-- ===== src/Loader/TlsTemplate.antt =====
-- include/astraea/loader/tls_template.hpp and src/loader/tls_template.cpp: the initial image of
-- thread-local storage. Allocation always succeeds here.
pub mod Materialize
use astraea.Prelude.{
  ℕ, zero, suc, ◌+◌, ◌%◌, not, ◌&&◌, ◌||◌, Option, none, some, List, [], ◌∷◌, ltb, ◌==◌,
  if◌then◌else◌, length, get_elem?, success, failure,
}
use astraea.Prelude.Attempts.{Attempt, ◌>>=◌, ◌>>◌, read, check}
use astraea.Prelude.Stores.{zeros, store}
use astraea.Loader.Headers.{ProgramHeader}
use astraea.Loader.Elf64.{is_power_of_two, add_overflows}

pub data TlsTemplateErrorCode : Type 0 where
  duplicate_tls_segment tls_initialized_size_exceeds_total : TlsTemplateErrorCode
  tls_file_range_overflow tls_file_range_out_of_bounds invalid_tls_flags : TlsTemplateErrorCode
  invalid_tls_alignment invalid_tls_alignment_congruence : TlsTemplateErrorCode
  host_size_unrepresentable host_allocation_failure : TlsTemplateErrorCode

pub record TlsTemplateError : Type 0 where
  pub code : TlsTemplateErrorCode
  pub source_program_header_index : Option ℕ
  pub conflicting_program_header_index : Option ℕ
  pub file_offset : Option ℕ

pub record TlsTemplateDescriptor : Type 0 where
  pub source_program_header_index : ℕ
  pub file_offset : ℕ
  pub initialization_address : ℕ
  pub initialized_size : ℕ
  pub total_size : ℕ
  pub alignment : ℕ

abbrev pub tls_error : TlsTemplateErrorCode → ℕ → Option ℕ → Option ℕ → TlsTemplateError
tls_error code index conflicting offset = record {
  code = code;
  source_program_header_index = some index;
  conflicting_program_header_index = conflicting;
  file_offset = offset;
}

-- file_range_is_valid, with the error that its caller makes of it.
unfoldable pub check_file_range : ℕ → ℕ → ℕ → ℕ → Attempt (Unit {0}) TlsTemplateError
check_file_range offset size image_size index = do
  check (not (size == 0) && add_overflows offset size)
      (tls_error tls_file_range_overflow index none (some offset))
  check (not (size == 0) && (ltb image_size offset || ltb image_size (offset + size)))
      (tls_error tls_file_range_out_of_bounds index none (some offset))

-- One round of the loop that looks for the segment of type PT_TLS.
unfoldable pub next_tls :
    ProgramHeader → Option ProgramHeader → Attempt (Option ProgramHeader) TlsTemplateError
next_tls h tls = if not (h.type == 7) then some (success tls) else (elim tls [
  | some t ↦ some (failure (tls_error duplicate_tls_segment h.index (some t.index) none))
  | none ↦ some (success (some h))
])

unfoldable pub find_tls :
    List ProgramHeader → Option ProgramHeader → Attempt (Option ProgramHeader) TlsTemplateError
find_tls [] tls = some (success tls)
find_tls (h ∷ hs) tls = do next ← next_tls h tls; find_tls hs next

abbrev pub descriptor_of : ProgramHeader → TlsTemplateDescriptor
descriptor_of tls = record {
  source_program_header_index = tls.index;
  file_offset = tls.offset;
  initialization_address = tls.virtual_address;
  initialized_size = tls.file_size;
  total_size = tls.memory_size;
  alignment = tls.alignment;
}

unfoldable pub check_tls : ProgramHeader → ℕ → Attempt (Unit {0}) TlsTemplateError
check_tls tls image_size = do
  check (not (tls.flags == 4)) (tls_error invalid_tls_flags tls.index none none)
  check (ltb tls.memory_size tls.file_size)
      (tls_error tls_initialized_size_exceeds_total tls.index none (some tls.offset))
  check (ltb 1 tls.alignment && not (is_power_of_two tls.alignment))
      (tls_error invalid_tls_alignment tls.index none none)
  check
      (ltb 1 tls.alignment
        && not (tls.virtual_address % tls.alignment == tls.offset % tls.alignment))
      (tls_error invalid_tls_alignment_congruence tls.index none none)
  check_file_range tls.offset tls.file_size image_size tls.index

abbrev pub describe :
    Option ProgramHeader → ℕ → Attempt (Option TlsTemplateDescriptor) TlsTemplateError
describe none image_size = some (success none)
describe (some tls) image_size = do
  check_tls tls image_size
  some (success (some (descriptor_of tls)))

unfoldable pub build_tls_template_descriptor :
    List ProgramHeader → List ℕ → Attempt (Option TlsTemplateDescriptor) TlsTemplateError
build_tls_template_descriptor program_headers image_bytes = do
  tls ← find_tls program_headers none
  describe tls (length image_bytes)

-- The loop that copies the initialized part, from index `i` on.
unfoldable pub copy_image : List ℕ → ℕ → List ℕ → ℕ → ℕ → Attempt (List ℕ) TlsTemplateError
copy_image image_bytes source result i zero = some (success result)
copy_image image_bytes source result i (suc rounds) = do
  b ← read (get_elem? image_bytes (source + i))
  next ← read (store result i b)
  copy_image image_bytes source next (i + 1) rounds

-- `max_size` is that of the vector of bytes.
unfoldable pub materialize_tls_template :
    ℕ → TlsTemplateDescriptor → List ℕ → Attempt (List ℕ) TlsTemplateError
materialize_tls_template max_size d image_bytes = do
  check (ltb d.total_size d.initialized_size) (
      tls_error tls_initialized_size_exceeds_total d.source_program_header_index none
        (some d.file_offset))
  check_file_range d.file_offset d.initialized_size (length image_bytes)
      d.source_program_header_index
  check (ltb max_size d.total_size)
      (tls_error host_size_unrepresentable d.source_program_header_index none (some d.file_offset))
  copy_image image_bytes d.file_offset (zeros d.total_size) 0 d.initialized_size

-- GuestImage::materialize_tls of src/loader/guest_image.cpp.
unfoldable pub materialize_tls :
    ℕ → Option TlsTemplateDescriptor → List ℕ → Attempt (Option (List ℕ)) TlsTemplateError
materialize_tls max_size none image_bytes = some (success none)
materialize_tls max_size (some d) image_bytes = do
  bytes ← materialize_tls_template max_size d image_bytes
  some (success (some bytes))
