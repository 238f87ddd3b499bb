-- ===== src/Memory/Tests.antt =====
-- The guest memory library on a small file with one loadable segment.
use astraea.Prelude.{
  ℕ, ◌+◌, ◌<◌, ◌≡◌, refl, ◌≢◌, ◌↔◌, ◌⊎◌, true, some, List, [], ◌∷◌, arith, u64_max, All, success,
  failure,
}
use astraea.Loader.Headers.{ProgramHeader}
use mathlib.Core.List.{Perm}
use astraea.Memory.Address.{GuestRange, IsRange, contains, overlaps}
use astraea.Memory.Address.Ranges.{create_total, overlaps_iff}
use astraea.Memory.Mapping.{
  MappingIntent, file, zero_fill, error, mapping_intents_from_load, classify_overlap,
  file_position_at, mapping_intent_less, not_load_segment, no_overlap,
}
use astraea.Memory.Mapping.Segments.{
  IsLoad, OfSegment, sources_at, segment_sources, error_of, mapping_intents_from_load_covers,
  mapping_intents_from_load_error,
}
use astraea.Memory.Mapping.Overlaps.{
  InOrder, classify_overlap-ne-no_overlap, file_position_at-agree,
}
use astraea.Memory.ImageView.{
  InitializedImageView, read_byte, copy_bytes, create, source_byte, resolve, source_at,
  file_source_at, join_sources, sources_match,
}
use astraea.Memory.ImageView.Create.{IsBacked, IsView, create_iff}
use astraea.Memory.ImageView.Read.{read_byte-Answers}
use astraea.Memory.ImageView.Copy.{copy_bytes_iff}

-- Three bytes at file offset 4 and two zero bytes, at address 4096.
abbrev segment : ProgramHeader
segment = record {
  type = 1;
  flags = 6;
  offset = 4;
  virtual_address = 4096;
  physical_address = 0;
  file_size = 3;
  memory_size = 5;
  alignment = 4096;
  index = 2;
}

abbrev file_part : MappingIntent
file_part = record {
  range = record { base = 4096; size = 3 };
  permissions = record { bits = 3 };
  backing = record { kind = file; file_offset = 4; byte_count = 3 };
  source_index = 2;
}

abbrev zero_part : MappingIntent
zero_part = record {
  range = record { base = 4099; size = 2 };
  permissions = record { bits = 3 };
  backing = record { kind = zero_fill; file_offset = 0; byte_count = 2 };
  source_index = 2;
}

-- The same two file bytes once more, from another segment.
abbrev shared_part : MappingIntent
shared_part = record {
  range = record { base = 4097; size = 2 };
  permissions = record { bits = 3 };
  backing = record { kind = file; file_offset = 5; byte_count = 2 };
  source_index = 3;
}

abbrev bytes : List ℕ
bytes = 127 ∷ 69 ∷ 76 ∷ 70 ∷ 10 ∷ 11 ∷ 12 ∷ []

abbrev view : InitializedImageView
view = record { image_bytes = bytes; intents = file_part ∷ shared_part ∷ zero_part ∷ [] }

segment-IsLoad : IsLoad segment
segment-IsLoad = record {
  load = refl;
  sizes = omega arith;
  address_fits = omega arith;
  fits = omega arith;
}

view-IsView : IsView view
unfolding mapping_intent_less
view-IsView = record {
  fits = omega arith;
  backed = (
    record { whole = refl; bytes = omega arith },
    (record { whole = refl; bytes = omega arith }, (record { whole = refl; bytes = tt }, tt)),
  );
  ordered = ((refl, (refl, tt)), ((refl, tt), (tt, tt)));
}

create_total_example :
    ((r : GuestRange) × (astraea.Memory.Address.create 4096 3 ≡ success r)
      × IsRange r
      × (r.base ≡ 4096)
      × (r.size ≡ 3))
    ⊎ ((astraea.Memory.Address.create 4096 3 ≡ failure astraea.Memory.Address.guest_range_overflow)
        × (u64_max + 1 < 4096 + 3))
create_total_example = create_total 4096 3 (omega arith) (omega arith)

overlaps_iff_example :
    (overlaps file_part.range shared_part.range ≡ true)
    ↔ ((a : ℕ) × (contains file_part.range a ≡ true) × (contains shared_part.range a ≡ true))
overlaps_iff_example = overlaps_iff file_part.range shared_part.range

mapping_intents_from_load_covers_example :
    (ms : List MappingIntent) × (mapping_intents_from_load segment ≡ success ms)
    × ((a : ℕ) → sources_at ms a ≡ segment_sources segment a)
    × All (OfSegment segment) ms
mapping_intents_from_load_covers_example = mapping_intents_from_load_covers segment segment-IsLoad

abbrev note_segment : ProgramHeader
note_segment = record segment { type = 4 }

mapping_intents_from_load_error_example :
    error_of (mapping_intents_from_load note_segment) ≡ some (error not_load_segment 2)
mapping_intents_from_load_error_example =
    mapping_intents_from_load_error note_segment (omega arith) (omega arith)

classify_overlap-ne-no_overlap_example :
    (classify_overlap file_part shared_part ≢ no_overlap)
    ↔ ((a : ℕ) × (contains file_part.range a ≡ true) × (contains shared_part.range a ≡ true))
classify_overlap-ne-no_overlap_example = classify_overlap-ne-no_overlap file_part shared_part

file_position_at-agree_example : file_position_at file_part 4097 ≡ file_position_at shared_part 4097
unfolding contains classify_overlap overlaps
file_position_at-agree_example =
    file_position_at-agree file_part shared_part 4097 refl refl refl refl refl (λ h. cc)

create_iff_example :
    ((v : InitializedImageView) × (create bytes (zero_part ∷ file_part ∷ []) ≡ success v)
      × (v.image_bytes ≡ bytes)
      × Perm v.intents (zero_part ∷ file_part ∷ [])
      × InOrder v.intents
      × IsView v)
    ↔ All (IsBacked 7) (zero_part ∷ file_part ∷ [])
create_iff_example = create_iff bytes (zero_part ∷ file_part ∷ []) (omega arith)

read_byte-Answers_example :
    astraea.Memory.ImageView.Sources.Answers bytes 4098
      (astraea.Memory.ImageView.Sources.agreement (sources_at view.intents 4098))
      (read_byte view 4098)
read_byte-Answers_example = read_byte-Answers view 4098 view-IsView

copy_bytes_iff_example :
    copy_bytes view (record { base = 4098; size = 2 }) (9 ∷ 9 ∷ []) ≡ some (success 2, 12 ∷ 0 ∷ [])
unfolding read_byte source_byte resolve source_at file_source_at join_sources sources_match contains
copy_bytes_iff_example =
    (copy_bytes_iff view (record { base = 4098; size = 2 }) (9 ∷ 9 ∷ []) (12 ∷ 0 ∷ [])
        (record { base_fits = omega arith; last_fits = omega arith })).1
      (refl, refl, (refl, (refl, tt)))
