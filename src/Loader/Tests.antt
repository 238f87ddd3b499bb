-- ===== src/Loader/Tests.antt =====
-- Runs of the loader's parsers on small files, and the theorems at concrete inputs.
mod Tables
mod Hash
mod Gnu
use astraea.Prelude.Stores.{store}
use astraea.Loader.InitialStack.Layout.{
  InitialStackRequest, InitialStackError, InitialStackImage, check_strings, check_auxiliary,
  add_string_sizes, control_size_of, add_pieces, layout_of,
}
use astraea.Loader.InitialStack.Layout
use astraea.Loader.InitialStack.{build_initial_stack, copy_strings, store_bytes, write_words}
use astraea.Loader.InitialStack.Sizes.{NoOverflow}
use astraea.Loader.InitialStack.Build.{IsStack, build_initial_stack_lem}
use astraea.Loader.Headers.{ProgramHeader}
use astraea.Loader.Dynamic.{parse_dynamic_table, check_segment, entries_from, read_entry}
use astraea.Loader.Dynamic.Scan.{IsDynamic, IsDynamicError, parse_dynamic_table_lem}
use astraea.Loader.DynamicString.{
  DynamicStringTableDescriptor, DynamicStringRef, resolve_dynamic_string, address_at, find_length,
  image_byte, copy_string,
}
use astraea.Loader.DynamicString.Resolve.{HoldsString, resolve_dynamic_string_iff}
use astraea.Memory.Address.{create, checked_add, contains}
use astraea.Memory.Mapping.{file}
use astraea.Memory.ImageView.{
  InitializedImageView, read_byte, source_byte, resolve, source_at, file_source_at, join_sources,
  sources_match,
}
use astraea.Prelude.{
  ◌≤◌, ◌<◌, ◌↔◌, ℕ, ◌≡◌, refl, none, some, List, [], ◌∷◌, arith, length, success, failure,
}
use astraea.Prelude.Attempts.{Attempt, Ensures}
use astraea.Prelude.LittleEndian.{little_endian, read_little_endian}
use astraea.Loader.Headers.{ElfImage}
use astraea.Loader.Elf64.{
  generic, ps5_sce, parse_elf64, header_error, unsupported_file_type, ElfError, check_magic,
  check_ident, read_header, check_header, supported_file_type, check_table, is_power_of_two,
  read_program_header, check_load, next_load_address, program_headers_from, parse_program_headers,
}
use astraea.Loader.Elf64.Fields.{InFile}
use astraea.Loader.Elf64.Parse.{IsElf, parse_elf64_lem}
use astraea.Loader.GuestImage.{build_mapped_image}
use astraea.Loader.GuestImage.Errors.{IsFileError}
use astraea.Loader.GuestImage.Build.{IsMapped, build_mapped_image_lem}
use astraea.Memory.Address.{GuestRange}

-- An executable with one segment: two bytes of the file and two zeros, at 4104.
abbrev small_file : List ℕ
small_file =
    127 ∷ 69 ∷ 76 ∷ 70 ∷ 2 ∷ 1 ∷ 1 ∷ 0 ∷ 0 ∷ 0 ∷ 0 ∷ 0 ∷ 0 ∷ 0 ∷ 0 ∷ 0 ∷ 2 ∷ 0 ∷ 62 ∷ 0 ∷ 1 ∷ 0 ∷ 0
    ∷ 0 ∷ 0 ∷ 16 ∷ 0 ∷ 0 ∷ 0 ∷ 0 ∷ 0 ∷ 0 ∷ 64 ∷ 0 ∷ 0 ∷ 0 ∷ 0 ∷ 0 ∷ 0 ∷ 0 ∷ 0 ∷ 0 ∷ 0 ∷ 0 ∷ 0 ∷ 0
    ∷ 0 ∷ 0 ∷ 0 ∷ 0 ∷ 0 ∷ 0 ∷ 64 ∷ 0 ∷ 56 ∷ 0 ∷ 1 ∷ 0 ∷ 0 ∷ 0 ∷ 0 ∷ 0 ∷ 0 ∷ 0 ∷ 1 ∷ 0 ∷ 0 ∷ 0 ∷ 5
    ∷ 0 ∷ 0 ∷ 0 ∷ 120 ∷ 0 ∷ 0 ∷ 0 ∷ 0 ∷ 0 ∷ 0 ∷ 0 ∷ 8 ∷ 16 ∷ 0 ∷ 0 ∷ 0 ∷ 0 ∷ 0 ∷ 0 ∷ 0 ∷ 0 ∷ 0 ∷ 0
    ∷ 0 ∷ 0 ∷ 0 ∷ 0 ∷ 2 ∷ 0 ∷ 0 ∷ 0 ∷ 0 ∷ 0 ∷ 0 ∷ 0 ∷ 4 ∷ 0 ∷ 0 ∷ 0 ∷ 0 ∷ 0 ∷ 0 ∷ 0 ∷ 16 ∷ 0 ∷ 0 ∷ 0
    ∷ 0 ∷ 0 ∷ 0 ∷ 0 ∷ 7 ∷ 9 ∷ []

abbrev program_header_count : Attempt ElfImage ElfError → ℕ
program_header_count none = 0
program_header_count (some (failure e)) = 0
program_header_count (some (success image)) = length image.program_headers

parse_small_file : program_header_count (parse_elf64 small_file generic) ≡ 1
unfolding parse_elf64 check_magic check_ident read_header check_header supported_file_type
    check_table is_power_of_two read_program_header check_load next_load_address
    program_headers_from parse_program_headers read_little_endian
parse_small_file = refl

parse_small_file_sce :
    parse_elf64 small_file ps5_sce ≡ some (failure (header_error unsupported_file_type 16))
unfolding parse_elf64 check_magic check_ident read_header check_header supported_file_type
    read_little_endian
parse_small_file_sce = refl

abbrev stack_storage : GuestRange
stack_storage = record { base = 65536; size = 4096 }

parse_elf64_lem_example :
    Ensures (IsElf small_file generic) (InFile (length small_file)) (parse_elf64 small_file generic)
parse_elf64_lem_example = parse_elf64_lem small_file generic (omega arith) (omega arith)

build_mapped_image_lem_example :
    Ensures
      (IsMapped small_file generic stack_storage)
      (IsFileError small_file generic stack_storage)
      (build_mapped_image small_file generic stack_storage)
build_mapped_image_lem_example =
    build_mapped_image_lem small_file generic stack_storage (omega arith) (omega arith)

-- One entry that names a string table, and the null one.
abbrev dynamic_file : List ℕ
dynamic_file =
    5 ∷ 0 ∷ 0 ∷ 0 ∷ 0 ∷ 0 ∷ 0 ∷ 0 ∷ 0 ∷ 16 ∷ 0 ∷ 0 ∷ 0 ∷ 0 ∷ 0 ∷ 0 ∷ 0 ∷ 0 ∷ 0 ∷ 0 ∷ 0 ∷ 0 ∷ 0 ∷ 0
    ∷ 0 ∷ 0 ∷ 0 ∷ 0 ∷ 0 ∷ 0 ∷ 0 ∷ 0 ∷ []

abbrev dynamic_segment : ProgramHeader
dynamic_segment = record {
  type = 2;
  flags = 6;
  offset = 0;
  virtual_address = 4096;
  physical_address = 0;
  file_size = 32;
  memory_size = 32;
  alignment = 8;
  index = 0;
}

parse_dynamic_file :
    parse_dynamic_table dynamic_file dynamic_segment
    ≡ some (
        success (record {
          entries =
              record { tag = 5; value = 4096; index = 0 }
              ∷ record { tag = 0; value = 0; index = 1 }
              ∷ [];
        }))
unfolding parse_dynamic_table check_segment entries_from read_entry read_little_endian
parse_dynamic_file = refl

parse_dynamic_table_lem_example :
    Ensures
      (IsDynamic dynamic_file dynamic_segment)
      (IsDynamicError dynamic_file dynamic_segment)
      (parse_dynamic_table dynamic_file dynamic_segment)
parse_dynamic_table_lem_example =
    parse_dynamic_table_lem dynamic_file dynamic_segment (omega arith) (omega arith)

-- A table of the strings "" and "ab", in a file that is mapped at 4096.
abbrev string_table : DynamicStringTableDescriptor
string_table = record { range = record { base = 4096; size = 4 } }

abbrev string_view : InitializedImageView
string_view = record {
  image_bytes = 0 ∷ 97 ∷ 98 ∷ 0 ∷ [];
  intents =
      record {
        range = record { base = 4096; size = 4 };
        permissions = record { bits = 1 };
        backing = record { kind = file; file_offset = 0; byte_count = 4 };
        source_index = 0;
      }
      ∷ [];
}

abbrev string_reference : DynamicStringRef
string_reference = record { offset = 1; source_entry_index = 0 }

resolve_string :
    resolve_dynamic_string 100 string_table string_reference string_view
    ≡ some (success (97 ∷ 98 ∷ []))
unfolding resolve_dynamic_string address_at checked_add find_length image_byte copy_string read_byte
    source_byte resolve source_at file_source_at join_sources sources_match contains
resolve_string = refl

resolve_dynamic_string_iff_example :
    (resolve_dynamic_string 100 string_table string_reference string_view
      ≡ some (success (97 ∷ 98 ∷ [])))
    ↔ (HoldsString string_view 4097 (97 ∷ 98 ∷ []) × (3 < 4) × (2 ≤ 100))
resolve_dynamic_string_iff_example =
    resolve_dynamic_string_iff 100 string_table string_reference string_view (97 ∷ 98 ∷ [])
      (record { base_fits = omega arith; last_fits = omega arith })

-- One argument, "ls", and nothing else, on a small stack.
abbrev stack_request : InitialStackRequest
stack_request = record {
  storage = record { base = 65536; size = 128 };
  arguments = (108 ∷ 115 ∷ []) ∷ [];
  environment = [];
  auxiliary_vector = [];
}

abbrev stack_pointer : Attempt InitialStackImage InitialStackError → ℕ
stack_pointer none = 0
stack_pointer (some (failure e)) = 0
stack_pointer (some (success image)) = image.rsp

build_stack_request : stack_pointer (build_initial_stack 1024 stack_request) ≡ 65600
unfolding build_initial_stack check_strings check_auxiliary add_string_sizes control_size_of
    add_pieces layout_of Layout.address_at checked_add create copy_strings store_bytes store
    write_words little_endian
build_stack_request = refl

build_initial_stack_lem_example :
    Ensures (IsStack stack_request) NoOverflow (build_initial_stack 1024 stack_request)
build_initial_stack_lem_example =
    build_initial_stack_lem 1024 stack_request
      (record { base_fits = omega arith; last_fits = omega arith })
