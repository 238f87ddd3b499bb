-- ===== src/Loader/SysvHash.antt =====
-- include/astraea/loader/sysv_hash.hpp and src/loader/sysv_hash.cpp: the number of symbols that the
-- hash table DT_HASH gives.
pub mod Count
pub mod Locate
use astraea.Prelude.{
  ℕ, ◌-◌, ◌/◌, not, Option, none, some, List, [], ◌∷◌, ◌==◌, if◌then◌else◌, Result, success,
  failure,
}
use astraea.Prelude.Attempts.{Attempt, ◌>>=◌, ◌>>◌, read, check}
use astraea.Prelude.LittleEndian.{read_little_endian}
use astraea.Memory.Address.{GuestRange, create}
use astraea.Memory.ImageView.{InitializedImageView, InitializedImageError, copy_bytes}
use astraea.Loader.Dynamic.{DynamicEntry, DynamicTable}

pub data SysvHashErrorCode : Type 0 where
  conflicting_dynamic_tag hash_header_range_overflow : SysvHashErrorCode
  hash_header_unreadable invalid_symbol_count : SysvHashErrorCode

pub record SysvHashError : Type 0 where
  pub code : SysvHashErrorCode
  pub source_entry_index : Option ℕ
  pub conflicting_entry_index : Option ℕ
  pub guest_address : Option ℕ
  pub image_error : Option InitializedImageError

pub record SysvHashCountEvidence : Type 0 where
  pub hash_address : ℕ
  pub bucket_count : ℕ
  pub symbol_count : ℕ
  pub source_entry_index : ℕ

pub record HashLocation : Type 0 where
  pub address : ℕ
  pub source_entry_index : ℕ

abbrev pub hash_error :
    SysvHashErrorCode → ℕ → Option ℕ → Option ℕ → Option InitializedImageError → SysvHashError
hash_error code source conflicting address error = record {
  code = code;
  source_entry_index = some source;
  conflicting_entry_index = conflicting;
  guest_address = address;
  image_error = error;
}

-- One round of the loop that looks for the tag DT_HASH.
unfoldable pub next_hash :
    Option HashLocation → DynamicEntry → Attempt (Option HashLocation) SysvHashError
next_hash hash e = if not (e.tag == 4) then some (success hash) else (elim hash [
  | none ↦ some (success (some (record { address = e.value; source_entry_index = e.index })))
  | some h ↦ (do
    check (not (h.address == e.value))
        (hash_error conflicting_dynamic_tag e.index (some h.source_entry_index) none none)
    some (success (some h)))
])

unfoldable pub find_hash :
    Option HashLocation → List DynamicEntry → Attempt (Option HashLocation) SysvHashError
find_hash hash [] = some (success hash)
find_hash hash (e ∷ es) = do next ← next_hash hash e; find_hash next es

abbrev pub hash_range : HashLocation → Attempt GuestRange SysvHashError
hash_range h = elim (create h.address 8) [
  | success range ↦ some (success range)
  | failure e ↦ some (
      failure
        (hash_error hash_header_range_overflow h.source_entry_index none (some h.address) none))
]

abbrev pub address_or : Option ℕ → ℕ → ℕ
address_or none base = base
address_or (some a) base = a

-- The copy of the header, into a buffer of zeros.
abbrev pub or_unreadable :
    HashLocation → Option (Result ℕ InitializedImageError × List ℕ) → Attempt (List ℕ) SysvHashError
or_unreadable h none = none
or_unreadable h (some (success size, header)) = some (success header)
or_unreadable h (some (failure e, header)) = some (
    failure (
      hash_error hash_header_unreadable h.source_entry_index none
        (some (address_or e.guest_address h.address)) (some e)))

unfoldable pub read_counts :
    InitializedImageView → HashLocation → Attempt SysvHashCountEvidence SysvHashError
read_counts view h = do
  range ← hash_range h
  header ← or_unreadable h (copy_bytes view range (0 ∷ 0 ∷ 0 ∷ 0 ∷ 0 ∷ 0 ∷ 0 ∷ 0 ∷ []))
  nbucket ← read (read_little_endian header 0 4)
  nchain ← read (read_little_endian header 4 4)
  check (nchain == 0)
      (hash_error invalid_symbol_count h.source_entry_index none (some h.address) none)
  some (
      success (record {
        hash_address = h.address;
        bucket_count = nbucket;
        symbol_count = nchain;
        source_entry_index = h.source_entry_index;
      }))

abbrev pub counts_of :
    InitializedImageView
    → Option HashLocation
    → Attempt (Option SysvHashCountEvidence) SysvHashError
counts_of view none = some (success none)
counts_of view (some h) = do evidence ← read_counts view h; some (success (some evidence))

unfoldable pub build_sysv_hash_count_evidence :
    DynamicTable → InitializedImageView → Attempt (Option SysvHashCountEvidence) SysvHashError
build_sysv_hash_count_evidence table view = do
  hash ← find_hash none table.entries
  counts_of view hash
