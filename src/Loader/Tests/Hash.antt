-- ===== src/Loader/Tests/Hash.antt =====
-- The symbol count of a small hash table, and a symbol.
use astraea.Prelude.LittleEndian.{read_little_endian}
use astraea.Memory.Address.{checked_add, contains}
use astraea.Memory.Mapping.{file, mapping_intent_less}
use astraea.Memory.ImageView.{
  InitializedImageView, copy_bytes, copy_loop, store_byte, read_byte, source_byte, resolve,
  source_at, file_source_at, join_sources, sources_match,
}
use astraea.Memory.ImageView.Create.{IsView}
use astraea.Loader.DynamicSymbol.{
  DynamicSymbolTableDescriptor, parse_dynamic_symbol, read_symbol, decode_symbol, symbol_error,
  symbol_index_out_of_bounds,
}
use astraea.Loader.DynamicSymbol.Entry.{IsSymbol, OfSymbol, parse_dynamic_symbol_lem}
use astraea.Loader.SysvHash.{build_sysv_hash_count_evidence, find_hash, next_hash, read_counts}
use astraea.Loader.SysvHash.Locate.{NamesIndex}
use astraea.Loader.SysvHash.Count.{IsCount, build_sysv_hash_count_evidence_lem}
use astraea.Memory.Address.{create}
use astraea.Prelude.{none, false, failure, true, ◌≡◌, refl, some, [], ◌∷◌, arith, success}
use astraea.Prelude.Attempts.{Ensures}
use astraea.Loader.Dynamic.{DynamicTable}

-- A header of three buckets and five symbols, in a file that is mapped at 4096.
abbrev hash_view : InitializedImageView
hash_view = record {
  image_bytes = 3 ∷ 0 ∷ 0 ∷ 0 ∷ 5 ∷ 0 ∷ 0 ∷ 0 ∷ [];
  intents =
      record {
        range = record { base = 4096; size = 8 };
        permissions = record { bits = 1 };
        backing = record { kind = file; file_offset = 0; byte_count = 8 };
        source_index = 0;
      }
      ∷ [];
}

hash_view-IsView : IsView hash_view
unfolding mapping_intent_less
hash_view-IsView = record {
  fits = omega arith;
  backed = (record { whole = refl; bytes = omega arith }, tt);
  ordered = (tt, tt);
}

abbrev hash_table : DynamicTable
hash_table = record {
  entries =
      record { tag = 5; value = 9; index = 0 } ∷ record { tag = 4; value = 4096; index = 1 } ∷ [];
}

build_hash_table :
    build_sysv_hash_count_evidence hash_table hash_view
    ≡ some (
        success (
          some (record {
            hash_address = 4096;
            bucket_count = 3;
            symbol_count = 5;
            source_entry_index = 1;
          })))
unfolding build_sysv_hash_count_evidence find_hash next_hash read_counts create copy_bytes copy_loop
    store_byte read_byte source_byte resolve source_at file_source_at join_sources sources_match
    contains checked_add read_little_endian
build_hash_table = refl

build_sysv_hash_count_evidence_lem_example :
    Ensures
      (IsCount hash_table.entries hash_view)
      (NamesIndex hash_table.entries)
      (build_sysv_hash_count_evidence hash_table hash_view)
build_sysv_hash_count_evidence_lem_example =
    build_sysv_hash_count_evidence_lem hash_table hash_view hash_view-IsView
      (omega arith, (omega arith, tt))

-- A table of one symbol, in a file that is mapped at 8192.
abbrev symbol_view : InitializedImageView
symbol_view = record {
  image_bytes =
      1 ∷ 2 ∷ 0 ∷ 0 ∷ 18 ∷ 0 ∷ 7 ∷ 1 ∷ 0 ∷ 16 ∷ 0 ∷ 0 ∷ 0 ∷ 0 ∷ 0 ∷ 0 ∷ 64 ∷ 0 ∷ 0 ∷ 0 ∷ 0 ∷ 0 ∷ 0
      ∷ 0 ∷ [];
  intents =
      record {
        range = record { base = 8192; size = 24 };
        permissions = record { bits = 1 };
        backing = record { kind = file; file_offset = 0; byte_count = 24 };
        source_index = 0;
      }
      ∷ [];
}

symbol_view-IsView : IsView symbol_view
unfolding mapping_intent_less
symbol_view-IsView = record {
  fits = omega arith;
  backed = (record { whole = refl; bytes = omega arith }, tt);
  ordered = (tt, tt);
}

abbrev one_symbol : DynamicSymbolTableDescriptor
one_symbol = record {
  range = record { base = 8192; size = 24 };
  entry_size = 24;
  symbol_count = 1;
  count_from_symtabsz = true;
  count_from_sysv_hash = false;
  symtab_source_entry_index = 2;
  syment_source_entry_index = 3;
  symtabsz_source_entry_index = some 4;
  hash_source_entry_index = none;
  count_from_gnu_hash = false;
  gnu_hash_source_entry_index = none;
}

parse_one_symbol :
    parse_dynamic_symbol one_symbol 0 symbol_view
    ≡ some (
        success (record {
          index = 0;
          name_offset = 513;
          info = 18;
          other = 0;
          section_index_raw = 263;
          value = 4096;
          size = 64;
        }))
unfolding read_symbol decode_symbol create copy_bytes copy_loop store_byte read_byte source_byte
    resolve source_at file_source_at join_sources sources_match contains checked_add
    read_little_endian
parse_one_symbol = refl

parse_second_symbol :
    parse_dynamic_symbol one_symbol 1 symbol_view
    ≡ some (failure (symbol_error symbol_index_out_of_bounds one_symbol 1 none none))
unfolding read_symbol
parse_second_symbol = refl

parse_dynamic_symbol_lem_example :
    Ensures
      (IsSymbol one_symbol 0 symbol_view)
      (OfSymbol one_symbol 0)
      (parse_dynamic_symbol one_symbol 0 symbol_view)
parse_dynamic_symbol_lem_example =
    parse_dynamic_symbol_lem one_symbol 0 symbol_view symbol_view-IsView
