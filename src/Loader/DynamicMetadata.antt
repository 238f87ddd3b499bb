-- ===== src/Loader/DynamicMetadata.antt =====
-- include/astraea/loader/dynamic_metadata.hpp and src/loader/dynamic_metadata.cpp: the strings that
-- the dynamic table names. Sce is the code for the Sony tags in the same file.
pub mod Build
pub mod First
pub mod Scan
pub mod Sce
pub mod Slots
pub mod Tags
pub mod Sony
use astraea.Prelude.{
  ℕ, ◌+◌, ◌-◌, ◌/◌, not, Option, none, some, List, [], ◌∷◌, ◌++◌, ◌==◌, if◌then◌else◌, success,
  failure,
}
use astraea.Prelude.Attempts.{Attempt, ◌>>=◌, ◌>>◌, check}
use astraea.Memory.Address.{create}
use astraea.Loader.Dynamic.{DynamicEntry, DynamicTable}
use astraea.Loader.DynamicString.{DynamicStringRef, DynamicStringTableDescriptor}

pub record SingletonValue : Type 0 where
  pub value : ℕ
  pub source_entry_index : ℕ

pub record DynamicStringMetadata : Type 0 where
  pub string_table : Option DynamicStringTableDescriptor
  pub needed : List DynamicStringRef
  pub soname : Option DynamicStringRef

pub data DynamicMetadataErrorCode : Type 0 where
  conflicting_dynamic_tag missing_required_companion_tag : DynamicMetadataErrorCode
  guest_table_range_overflow missing_string_table : DynamicMetadataErrorCode

pub record DynamicMetadataError : Type 0 where
  pub code : DynamicMetadataErrorCode
  pub tag : ℕ
  pub source_entry_index : Option ℕ
  pub conflicting_entry_index : Option ℕ

abbrev pub metadata_error :
    DynamicMetadataErrorCode → ℕ → Option ℕ → Option ℕ → DynamicMetadataError
metadata_error code tag source conflicting = record {
  code = code;
  tag = tag;
  source_entry_index = source;
  conflicting_entry_index = conflicting;
}

abbrev pub singleton_of : DynamicEntry → SingletonValue
singleton_of e = record { value = e.value; source_entry_index = e.index }

-- The slot that the call leaves.
unfoldable pub merge_singleton :
    Option SingletonValue → DynamicEntry → Attempt (Option SingletonValue) DynamicMetadataError
merge_singleton none e = some (success (some (singleton_of e)))
merge_singleton (some s) e = do
  check (not (s.value == e.value))
      (metadata_error conflicting_dynamic_tag e.tag (some e.index) (some s.source_entry_index))
  some (success (some s))

-- The local variables of build_dynamic_string_metadata.
pub record StringTags : Type 0 where
  pub strtab : Option SingletonValue
  pub strsz : Option SingletonValue
  pub soname : Option SingletonValue
  pub needed : List DynamicStringRef

abbrev pub no_tags : StringTags
no_tags = record { strtab = none; strsz = none; soname = none; needed = [] }

-- One round of the loop: the switch on the tag.
unfoldable pub scan_entry : StringTags → DynamicEntry → Attempt StringTags DynamicMetadataError
scan_entry tags e =
    if e.tag == 1
    then some (
        success (record tags {
          needed = tags.needed ++ (record { offset = e.value; source_entry_index = e.index } ∷ []);
        }))
    else if e.tag == 5
    then (do
      strtab ← merge_singleton tags.strtab e
      some (success (record tags { strtab = strtab })))
    else if e.tag == 10
    then (do strsz ← merge_singleton tags.strsz e; some (success (record tags { strsz = strsz })))
    else if e.tag == 14
    then (do
      soname ← merge_singleton tags.soname e
      some (success (record tags { soname = soname })))
    else some (success tags)

unfoldable pub scan_entries :
    StringTags → List DynamicEntry → Attempt StringTags DynamicMetadataError
scan_entries tags [] = some (success tags)
scan_entries tags (e ∷ es) = do next ← scan_entry tags e; scan_entries next es

abbrev pub missing_companion :
    ℕ → SingletonValue → Attempt (Option DynamicStringTableDescriptor) DynamicMetadataError
missing_companion tag s =
    some
      (failure (metadata_error missing_required_companion_tag tag (some s.source_entry_index) none))

-- The references are to a table that is missing.
abbrev pub missing_table :
    List DynamicStringRef
    → Option SingletonValue
    → Attempt (Option DynamicStringTableDescriptor) DynamicMetadataError
missing_table [] none = some (success none)
missing_table [] (some s) =
    some (failure (metadata_error missing_string_table 14 (some s.source_entry_index) none))
missing_table (r ∷ rs) soname =
    some (failure (metadata_error missing_string_table 1 (some r.source_entry_index) none))

abbrev pub table_at :
    SingletonValue
    → SingletonValue
    → Attempt (Option DynamicStringTableDescriptor) DynamicMetadataError
table_at strtab strsz = elim (create strtab.value strsz.value) [
  | success range ↦ some (success (some (record { range = range })))
  | failure e ↦ some (
      failure (
        metadata_error guest_table_range_overflow 5 (some strtab.source_entry_index)
          (some strsz.source_entry_index)))
]

-- The checks after the loop, and the table.
unfoldable pub string_table_of :
    StringTags → Attempt (Option DynamicStringTableDescriptor) DynamicMetadataError
string_table_of tags = elim tags.strtab [
  | none ↦ elim tags.strsz [
    | none ↦ missing_table tags.needed tags.soname
    | some strsz ↦ missing_companion 5 strsz
  ]
  | some strtab ↦ elim tags.strsz [
    | none ↦ missing_companion 10 strtab
    | some strsz ↦ table_at strtab strsz
  ]
]

abbrev pub soname_of : Option SingletonValue → Option DynamicStringRef
soname_of none = none
soname_of (some s) = some (record { offset = s.value; source_entry_index = s.source_entry_index })

unfoldable pub build_dynamic_string_metadata :
    DynamicTable → Attempt DynamicStringMetadata DynamicMetadataError
build_dynamic_string_metadata table = do
  tags ← scan_entries no_tags table.entries
  string_table ← string_table_of tags
  some (
      success (record {
        string_table = string_table;
        needed = tags.needed;
        soname = soname_of tags.soname;
      }))
