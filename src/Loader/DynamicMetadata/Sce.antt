-- ===== src/Loader/DynamicMetadata/Sce.antt =====
-- include/astraea/loader/dynamic_metadata.hpp and src/loader/dynamic_metadata.cpp: the records of the
-- Sony tags. Allocation always succeeds here.
use astraea.Prelude.{
  ℕ, zero, suc, not, Option, none, some, List, [], ◌∷◌, ◌==◌, if◌then◌else◌, get_elem?, success,
}
use astraea.Prelude.Attempts.{Attempt, ◌>>=◌, ◌>>◌, read, check}
use astraea.Loader.Dynamic.{DynamicEntry, DynamicTable}
use astraea.Loader.DynamicMetadata.{SingletonValue, singleton_of}

pub data SceDynamicTagKind : Type 0 where
  module_attributes export_library_attributes import_library_attributes : SceDynamicTagKind
  hash_table_size symbol_table_size original_filename module_information : SceDynamicTagKind
  needed_module export_library import_library unknown : SceDynamicTagKind

pub record SceDynamicRecord : Type 0 where
  pub kind : SceDynamicTagKind
  pub raw_tag : ℕ
  pub raw_value : ℕ
  pub source_entry_index : ℕ

pub data SceDynamicMetadataErrorCode : Type 0 where
  conflicting_singleton_tag host_allocation_failure : SceDynamicMetadataErrorCode

pub record SceDynamicMetadataError : Type 0 where
  pub code : SceDynamicMetadataErrorCode
  pub tag : ℕ
  pub source_entry_index : Option ℕ
  pub conflicting_entry_index : Option ℕ

unfoldable pub classify_sce_dynamic_tag : ℕ → SceDynamicTagKind
classify_sce_dynamic_tag tag =
    if tag == 1627389969
    then module_attributes
    else if tag == 1627389975
    then export_library_attributes
    else if tag == 1627389977
    then import_library_attributes
    else if tag == 1627390013
    then hash_table_size
    else if tag == 1627390015
    then symbol_table_size
    else if tag == 1627390017
    then original_filename
    else if tag == 1627390019
    then module_information
    else if tag == 1627390021
    then needed_module
    else if tag == 1627390023
    then export_library
    else if tag == 1627390025
    then import_library
    else unknown

unfoldable pub sce_singleton_slot : SceDynamicTagKind → Option ℕ
sce_singleton_slot module_attributes = some 0
sce_singleton_slot hash_table_size = some 1
sce_singleton_slot symbol_table_size = some 2
sce_singleton_slot original_filename = some 3
sce_singleton_slot module_information = some 4
sce_singleton_slot export_library_attributes = none
sce_singleton_slot import_library_attributes = none
sce_singleton_slot needed_module = none
sce_singleton_slot export_library = none
sce_singleton_slot import_library = none
sce_singleton_slot unknown = none

abbrev pub record_of : DynamicEntry → SceDynamicRecord
record_of e = record {
  kind = classify_sce_dynamic_tag e.tag;
  raw_tag = e.tag;
  raw_value = e.value;
  source_entry_index = e.index;
}

-- An element of the array of values is replaced.
unfoldable pub set_slot :
    List (Option SingletonValue) → ℕ → Option SingletonValue → List (Option SingletonValue)
set_slot [] i v = []
set_slot (s ∷ ss) zero v = v ∷ ss
set_slot (s ∷ ss) (suc i) v = s ∷ set_slot ss i v

-- The array after an entry whose kind has slot `i`.
unfoldable pub merge_slot :
    List (Option SingletonValue)
    → ℕ
    → DynamicEntry
    → Attempt (List (Option SingletonValue)) SceDynamicMetadataError
merge_slot values i e = do
  existing ← read (get_elem? values i)
  elim existing [
    | none ↦ some (success (set_slot values i (some (singleton_of e))))
    | some s ↦ (do
      check (not (s.value == e.value)) (record {
        code = conflicting_singleton_tag;
        tag = e.tag;
        source_entry_index = some e.index;
        conflicting_entry_index = some s.source_entry_index;
      })
      some (success values))
  ]

unfoldable pub merge_kind :
    List (Option SingletonValue)
    → DynamicEntry
    → Attempt (List (Option SingletonValue)) SceDynamicMetadataError
merge_kind values e = elim (sce_singleton_slot (classify_sce_dynamic_tag e.tag)) [
  | none ↦ some (success values)
  | some i ↦ merge_slot values i e
]

-- The loop over the entries. The records are in the order of the entries.
unfoldable pub sce_records :
    List (Option SingletonValue)
    → List DynamicEntry
    → Attempt (List SceDynamicRecord) SceDynamicMetadataError
sce_records values [] = some (success [])
sce_records values (e ∷ es) = do
  next ← merge_kind values e
  rest ← sce_records next es
  some (success (record_of e ∷ rest))

unfoldable pub build_sce_dynamic_metadata :
    DynamicTable → Attempt (List SceDynamicRecord) SceDynamicMetadataError
build_sce_dynamic_metadata table = sce_records (none ∷ none ∷ none ∷ none ∷ none ∷ []) table.entries
