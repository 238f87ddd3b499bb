-- ===== src/Loader/Tests/Gnu.antt =====
-- The symbol count of a small table of DT_GNU_HASH.
use astraea.Prelude.{◌≡◌, refl, some, [], ◌∷◌, success}
use astraea.Prelude.LittleEndian.{read_little_endian}
use astraea.Memory.Address.{create, checked_add, contains}
use astraea.Memory.Mapping.{file}
use astraea.Memory.ImageView.{
  InitializedImageView, copy_bytes, copy_loop, store_byte, read_byte, source_byte, resolve,
  source_at, file_source_at, join_sources, sources_match,
}
use astraea.Loader.Dynamic.{DynamicTable}
use astraea.Loader.GnuHash.{
  build_gnu_hash_count_evidence, find_location, next_location, read_table, read_word,
  highest_bucket, chain_end,
}

-- One bucket that starts at symbol 1, whose chain has two words, in a file that is mapped at 4096.
abbrev gnu_view : InitializedImageView
gnu_view = record {
  image_bytes =
      1 ∷ 0 ∷ 0 ∷ 0 ∷ 1 ∷ 0 ∷ 0 ∷ 0 ∷ 1 ∷ 0 ∷ 0 ∷ 0 ∷ 6 ∷ 0 ∷ 0 ∷ 0 ∷ 0 ∷ 0 ∷ 0 ∷ 0 ∷ 0 ∷ 0 ∷ 0 ∷ 0
      ∷ 1 ∷ 0 ∷ 0 ∷ 0 ∷ 2 ∷ 0 ∷ 0 ∷ 0 ∷ 5 ∷ 0 ∷ 0 ∷ 0 ∷ [];
  intents =
      record {
        range = record { base = 4096; size = 36 };
        permissions = record { bits = 1 };
        backing = record { kind = file; file_offset = 0; byte_count = 36 };
        source_index = 0;
      }
      ∷ [];
}

abbrev gnu_table : DynamicTable
gnu_table = record { entries = record { tag = 1879047925; value = 4096; index = 0 } ∷ [] }

build_gnu_table :
    build_gnu_hash_count_evidence gnu_table gnu_view
    ≡ some (
        success (
          some (record {
            hash_address = 4096;
            bucket_count = 1;
            first_hashed_symbol = 1;
            symbol_count = 3;
            source_entry_index = 0;
          })))
unfolding build_gnu_hash_count_evidence find_location next_location read_table read_word
    highest_bucket chain_end create copy_bytes copy_loop store_byte read_byte source_byte resolve
    source_at file_source_at join_sources sources_match contains checked_add read_little_endian
build_gnu_table = refl
