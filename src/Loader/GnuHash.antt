-- ===== src/Loader/GnuHash.antt =====
-- include/astraea/loader/gnu_hash.hpp and src/loader/gnu_hash.cpp: the number of symbols that the hash
-- table DT_GNU_HASH gives.
pub mod Words
pub mod Walk
pub mod Locate
pub mod Count
use astraea.Prelude.{
  ℕ, zero, suc, ◌+◌, ◌-◌, ◌*◌, ◌/◌, ◌%◌, max, bit_and, Bool, true, false, not, ◌&&◌, ◌||◌, Option,
  none, some, List, [], ◌∷◌, ltb, leb, ◌==◌, if◌then◌else◌, Result, success, failure,
}
use astraea.Prelude.Attempts.{Attempt, ◌>>=◌, ◌>>◌, read, check}
use astraea.Prelude.LittleEndian.{read_little_endian}
use astraea.Memory.Address.{GuestRange, create, checked_add}
use astraea.Memory.ImageView.{InitializedImageView, InitializedImageError, copy_bytes}
use astraea.Loader.Dynamic.{DynamicEntry, DynamicTable}
use astraea.Loader.SysvHash.{address_or}

pub data GnuHashErrorCode : Type 0 where
  conflicting_dynamic_tag hash_range_overflow hash_data_unreadable : GnuHashErrorCode
  invalid_hash_header invalid_bucket symbol_count_limit : GnuHashErrorCode

pub record GnuHashError : Type 0 where
  pub code : GnuHashErrorCode
  pub source_entry_index : Option ℕ
  pub conflicting_entry_index : Option ℕ
  pub guest_address : Option ℕ
  pub image_error : Option InitializedImageError

pub record GnuHashCountEvidence : Type 0 where
  pub hash_address : ℕ
  pub bucket_count : ℕ
  pub first_hashed_symbol : ℕ
  pub symbol_count : ℕ
  pub source_entry_index : ℕ

pub record HashLocation : Type 0 where
  pub address : ℕ
  pub source_entry_index : ℕ

abbrev pub error :
    GnuHashErrorCode → ℕ → Option ℕ → Option ℕ → Option InitializedImageError → GnuHashError
error code source conflict address image = record {
  code = code;
  source_entry_index = some source;
  conflicting_entry_index = conflict;
  guest_address = address;
  image_error = image;
}

abbrev pub word_address : HashLocation → ℕ → Attempt ℕ GnuHashError
word_address h offset = elim (checked_add h.address offset) [
  | success address ↦ some (success address)
  | failure e ↦
      some (failure (error hash_range_overflow h.source_entry_index none (some h.address) none))
]

abbrev pub word_range : HashLocation → ℕ → Attempt GuestRange GnuHashError
word_range h address = elim (create address 4) [
  | success range ↦ some (success range)
  | failure e ↦
      some (failure (error hash_range_overflow h.source_entry_index none (some address) none))
]

abbrev pub word_bytes :
    HashLocation
    → ℕ
    → Option (Result ℕ InitializedImageError × List ℕ)
    → Attempt (List ℕ) GnuHashError
word_bytes h address none = none
word_bytes h address (some (success size, bytes)) = some (success bytes)
word_bytes h address (some (failure e, bytes)) = some (
    failure (
      error hash_data_unreadable h.source_entry_index none
        (some (address_or e.guest_address address)) (some e)))

unfoldable pub read_word : InitializedImageView → HashLocation → ℕ → Attempt ℕ GnuHashError
read_word view h offset = do
  address ← word_address h offset
  range ← word_range h address
  bytes ← word_bytes h address (copy_bytes view range (0 ∷ 0 ∷ 0 ∷ 0 ∷ []))
  read (read_little_endian bytes 0 4)

abbrev pub power_of_two : ℕ → Bool
power_of_two value = not (value == 0) && (bit_and value (value - 1) == 0)

unfoldable pub next_location :
    Option HashLocation → DynamicEntry → Attempt (Option HashLocation) GnuHashError
next_location location e =
    if not (e.tag == 1879047925) then some (success location) else (elim location [
      | none ↦ some (success (some (record { address = e.value; source_entry_index = e.index })))
      | some h ↦ (do
        check (not (h.address == e.value))
            (error conflicting_dynamic_tag e.index (some h.source_entry_index) none none)
        some (success (some h)))
    ])

unfoldable pub find_location :
    Option HashLocation → List DynamicEntry → Attempt (Option HashLocation) GnuHashError
find_location location [] = some (success location)
find_location location (e ∷ es) = do next ← next_location location e; find_location next es

-- The loop over the buckets from bucket `i` on.
unfoldable pub highest_bucket :
    InitializedImageView → HashLocation → ℕ → ℕ → ℕ → ℕ → ℕ → Attempt ℕ GnuHashError
highest_bucket view h buckets_offset symoffset i zero highest = some (success highest)
highest_bucket view h buckets_offset symoffset i (suc rounds) highest = do
  bucket ← read_word view h (buckets_offset + 4 * i)
  check (not (bucket == 0) && (ltb bucket symoffset || leb 1000000 bucket))
      (error invalid_bucket h.source_entry_index none (some h.address) none)
  highest_bucket view h buckets_offset symoffset (i + 1) rounds (max highest bucket)

-- The loop along the last chain, which has one round at most for each index up to the limit.
unfoldable pub chain_end :
    InitializedImageView → HashLocation → ℕ → ℕ → ℕ → ℕ → Attempt ℕ GnuHashError
chain_end view h chains_offset symoffset zero index = none
chain_end view h chains_offset symoffset (suc fuel) index = do
  check (leb 1000000 index)
      (error symbol_count_limit h.source_entry_index none (some h.address) none)
  chain ← read_word view h (chains_offset + 4 * (index - symoffset))
  elim (bit_and chain 1 == 0) [
    | true ↦ chain_end view h chains_offset symoffset fuel (index + 1)
    | false ↦ some (success (index + 1))
  ]

abbrev pub count_from : InitializedImageView → HashLocation → ℕ → ℕ → ℕ → Attempt ℕ GnuHashError
count_from view h chains_offset symoffset highest =
    let along = chain_end view h chains_offset symoffset 1000001 highest in
    if highest == 0 then some (success symoffset) else along

-- The four words of the header are read before their errors are looked at; reading changes nothing.
unfoldable pub read_table :
    InitializedImageView → HashLocation → Attempt GnuHashCountEvidence GnuHashError
read_table view h = do
  nbuckets ← read_word view h 0
  symoffset ← read_word view h 4
  bloom_words ← read_word view h 8
  bloom_shift ← read_word view h 12
  check
      (nbuckets == 0
        || ltb 65536 nbuckets
        || not (power_of_two bloom_words)
        || ltb 65536 bloom_words
        || symoffset == 0
        || ltb 1000000 symoffset)
      (error invalid_hash_header h.source_entry_index none (some h.address) none)
  highest ← highest_bucket view h (16 + 8 * bloom_words) symoffset 0 nbuckets 0
  count ← count_from view h (16 + 8 * bloom_words + 4 * nbuckets) symoffset highest
  some (
      success (record {
        hash_address = h.address;
        bucket_count = nbuckets;
        first_hashed_symbol = symoffset;
        symbol_count = count;
        source_entry_index = h.source_entry_index;
      }))

abbrev pub evidence_of :
    InitializedImageView → Option HashLocation → Attempt (Option GnuHashCountEvidence) GnuHashError
evidence_of view none = some (success none)
evidence_of view (some h) = do evidence ← read_table view h; some (success (some evidence))

unfoldable pub build_gnu_hash_count_evidence :
    DynamicTable → InitializedImageView → Attempt (Option GnuHashCountEvidence) GnuHashError
build_gnu_hash_count_evidence table view = do
  location ← find_location none table.entries
  evidence_of view location
