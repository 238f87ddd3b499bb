-- ===== src/Loader/Tests/Tables.antt =====
-- The TLS template and the string metadata of small images.
use astraea.Prelude.Stores.{store}
use astraea.Loader.Elf64.{is_power_of_two}
use astraea.Memory.Address.{create}
use astraea.Prelude.{ℕ, ◌≡◌, refl, Option, some, List, [], ◌∷◌, arith, success, failure}
use astraea.Prelude.Attempts.{Attempt, ◌>>=◌, Ensures}
use astraea.Loader.Headers.{ProgramHeader}
use astraea.Loader.Dynamic.{DynamicTable}
use astraea.Loader.TlsTemplate.{
  TlsTemplateError, build_tls_template_descriptor, find_tls, next_tls, check_tls, check_file_range,
  copy_image, materialize_tls_template, materialize_tls,
}
use astraea.Loader.TlsTemplate.Materialize.{IsTls, NamesTls, materialize_tls_lem}
use astraea.Loader.DynamicMetadata.{
  build_dynamic_string_metadata, scan_entries, scan_entry, merge_singleton, string_table_of,
  metadata_error, conflicting_dynamic_tag,
}
use astraea.Loader.DynamicMetadata.Scan.{NamesEntry}
use astraea.Loader.DynamicMetadata.Sony.{
  IsSceMetadata, NamesConflict, build_sce_dynamic_metadata_lem,
}
use astraea.Loader.DynamicMetadata.Sce.{
  build_sce_dynamic_metadata, sce_records, merge_kind, merge_slot, set_slot,
  classify_sce_dynamic_tag, sce_singleton_slot, module_attributes, needed_module, unknown,
}
use astraea.Loader.DynamicMetadata.Build.{IsMetadata, build_dynamic_string_metadata_lem}

abbrev tls_header : ProgramHeader
tls_header = record {
  type = 7;
  flags = 4;
  offset = 1;
  virtual_address = 4097;
  physical_address = 0;
  file_size = 2;
  memory_size = 4;
  alignment = 8;
  index = 3;
}

abbrev tls_image : List ℕ
tls_image = 9 ∷ 10 ∷ 11 ∷ 12 ∷ []

abbrev tls_bytes : Attempt (Option (List ℕ)) TlsTemplateError
tls_bytes = build_tls_template_descriptor (tls_header ∷ []) tls_image >>= λ d.
    materialize_tls 100 d tls_image

materialize_tls_header : tls_bytes ≡ some (success (some (10 ∷ 11 ∷ 0 ∷ 0 ∷ [])))
unfolding build_tls_template_descriptor find_tls next_tls check_tls check_file_range copy_image
    materialize_tls_template materialize_tls store is_power_of_two
materialize_tls_header = refl

materialize_tls_lem_example :
    Ensures (IsTls (tls_header ∷ []) tls_image) (NamesTls (tls_header ∷ [])) tls_bytes
materialize_tls_lem_example = materialize_tls_lem 100 (tls_header ∷ []) tls_image (omega arith)

-- A string table, two needed names and a soname.
abbrev named_table : DynamicTable
named_table = record {
  entries =
      record { tag = 1; value = 1; index = 0 }
      ∷ record { tag = 5; value = 4096; index = 1 }
      ∷ record { tag = 10; value = 16; index = 2 }
      ∷ record { tag = 14; value = 7; index = 3 }
      ∷ record { tag = 1; value = 4; index = 4 }
      ∷ record { tag = 0; value = 0; index = 5 }
      ∷ [];
}

build_named_table :
    build_dynamic_string_metadata named_table
    ≡ some (
        success (record {
          string_table = some (record { range = record { base = 4096; size = 16 } });
          needed =
              record { offset = 1; source_entry_index = 0 }
              ∷ record { offset = 4; source_entry_index = 4 }
              ∷ [];
          soname = some (record { offset = 7; source_entry_index = 3 });
        }))
unfolding build_dynamic_string_metadata scan_entries scan_entry merge_singleton string_table_of
    create
build_named_table = refl

abbrev conflicting_table : DynamicTable
conflicting_table = record {
  entries =
      record { tag = 14; value = 7; index = 0 } ∷ record { tag = 14; value = 8; index = 1 } ∷ [];
}

build_conflicting_table :
    build_dynamic_string_metadata conflicting_table
    ≡ some (failure (metadata_error conflicting_dynamic_tag 14 (some 1) (some 0)))
unfolding build_dynamic_string_metadata scan_entries scan_entry merge_singleton string_table_of
build_conflicting_table = refl

build_dynamic_string_metadata_lem_example :
    Ensures
      (IsMetadata named_table.entries)
      (NamesEntry named_table.entries)
      (build_dynamic_string_metadata named_table)
build_dynamic_string_metadata_lem_example =
    build_dynamic_string_metadata_lem named_table
      (omega arith, (omega arith, (omega arith, (omega arith, (omega arith, (omega arith, tt))))))

-- Two attribute entries of one value, a needed module and an unknown tag.
abbrev sony_table : DynamicTable
sony_table = record {
  entries =
      record { tag = 1627389969; value = 3; index = 0 }
      ∷ record { tag = 1627390021; value = 8; index = 1 }
      ∷ record { tag = 1627389969; value = 3; index = 2 }
      ∷ record { tag = 0; value = 0; index = 3 }
      ∷ [];
}

build_sony_table :
    build_sce_dynamic_metadata sony_table
    ≡ some (
        success (
          record {
            kind = module_attributes;
            raw_tag = 1627389969;
            raw_value = 3;
            source_entry_index = 0;
          }
          ∷ record {
            kind = needed_module;
            raw_tag = 1627390021;
            raw_value = 8;
            source_entry_index = 1;
          }
          ∷ record {
            kind = module_attributes;
            raw_tag = 1627389969;
            raw_value = 3;
            source_entry_index = 2;
          }
          ∷ record { kind = unknown; raw_tag = 0; raw_value = 0; source_entry_index = 3 }
          ∷ []))
unfolding build_sce_dynamic_metadata sce_records merge_kind merge_slot set_slot
    classify_sce_dynamic_tag sce_singleton_slot
build_sony_table = refl

build_sce_dynamic_metadata_lem_example :
    Ensures
      (IsSceMetadata sony_table.entries)
      (NamesConflict sony_table.entries)
      (build_sce_dynamic_metadata sony_table)
build_sce_dynamic_metadata_lem_example = build_sce_dynamic_metadata_lem sony_table
