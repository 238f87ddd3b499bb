-- ===== src/Graphics/Packet/Framing.antt =====
-- frame_pm4_type3_stream cuts the whole buffer into type-3 frames, or says what is wrong.
use Prim.Native.Nat.add
use native.Mathlib.Nat.{zero-add, add-zero}
use astraea.Graphics.Packet.{
  RawPacketWord, RawPacket, Pm4Type3Header, Pm4Type3Frame, Pm4Type3FrameError,
  Pm4Type3FrameErrorCode, parse_raw_packet, read_words, read_little_endian_word, word_value,
  header_type_of, encoded_count_of, type3_header, frame_at, unsupported_packet_type,
  truncated_packet,
}
use astraea.Graphics.Packet.Words.{words, length-words, read_raw_word-words, read_words-words}
use astraea.Prelude.{
  lt→leb, le→ltb, ne→==, eq→==, ℕ, zero, suc, ◌+◌, ◌-◌, ◌/◌, ◌%◌, ◌^◌, ◌≤◌, ◌<◌, ◌≡◌, refl, sym, ap,
  ◌∙◌, ◌≢◌, true, false, none, some, List, [], ◌∷◌, arith, ltb, leb, ◌==◌, u64_max, lt→ltb, length,
  get_elem?, take, drop, success, failure,
}

-- The fields of a header word: the opcode is its second byte, and the count its 14 bits from bit 16.
abbrev pub header_of : ℕ → Pm4Type3Header
header_of raw = record {
  raw_word = raw;
  opcode = raw / 256 % 256;
  encoded_count = raw / 65536 % 16384;
  low_control_bits = raw % 256;
  body_word_count = raw / 65536 % 16384 + 1;
  total_word_count = raw / 65536 % 16384 + 2;
}

pub type3_header_lem : (raw : ℕ) → type3_header raw ≡ header_of raw
unfolding type3_header encoded_count_of
type3_header_lem raw = refl

-- The frame that starts at the head `w` of the words `ws`.
abbrev pub frame_size : RawPacketWord → ℕ
frame_size w = encoded_count_of (word_value w) + 2

abbrev pub packet_of : ℕ → List RawPacketWord → RawPacketWord → RawPacket
packet_of offset ws w = record {
  extent = record { word_offset = offset; word_count = frame_size w };
  header = record { word_offset = offset; raw = w };
  raw_words = take (frame_size w) ws;
}

abbrev pub frame_of : ℕ → List RawPacketWord → RawPacketWord → Pm4Type3Frame
frame_of offset ws w = record {
  word_offset = offset;
  header = type3_header (word_value w);
  raw_packet = packet_of offset ws w;
}

-- The frame is the one at the head of the words: its header has packet type 3 and the fields
-- of the word, and the words suffice.
abbrev pub IsFrame : ℕ → List RawPacketWord → Pm4Type3Frame → Type 0
IsFrame offset ws f =
    (w : RawPacketWord) × (get_elem? ws 0 ≡ some w)
    × (header_type_of (word_value w) ≡ 3)
    × (frame_size w ≤ length ws)
    × (f.header ≡ header_of (word_value w))
    × (f ≡ frame_of offset ws w)

-- The frames follow each other without a gap and use up the words.
abbrev pub Tiles : ℕ → List RawPacketWord → List Pm4Type3Frame → Type 0
Tiles offset ws [] = ws ≡ []
Tiles offset ws (f ∷ fs) =
    IsFrame offset ws f
    × Tiles (offset + f.header.total_word_count) (drop f.header.total_word_count ws) fs

pub length-drop : (n : ℕ) (xs : List RawPacketWord) → length (drop n xs) ≡ length xs - n
length-drop zero xs = omega arith
length-drop (suc n) [] = omega arith
length-drop (suc n) (x ∷ xs) = omega (arith, length-drop n xs)

pub drop-drop : (m n : ℕ) (xs : List RawPacketWord) → drop n (drop m xs) ≡ drop (m + n) xs
drop-drop zero n xs = rw (zero-add n)
drop-drop (suc m) zero [] = rw (add-zero (suc m))
drop-drop (suc m) (suc n) [] = rw (add.suc m (suc n))
drop-drop (suc m) n (x ∷ xs) = rw (add.suc m n) (drop-drop m n xs)

pub get_elem?-drop : (i : ℕ) (xs : List RawPacketWord) → get_elem? (drop i xs) 0 ≡ get_elem? xs i
get_elem?-drop zero [] = refl
get_elem?-drop zero (x ∷ xs) = refl
get_elem?-drop (suc i) [] = refl
get_elem?-drop (suc i) (x ∷ xs) = get_elem?-drop i xs

take_head :
    (n : ℕ) (ws : List RawPacketWord) (w : RawPacketWord)
    → get_elem? ws 0 ≡ some w
    → (rest : List RawPacketWord) × (take (suc n) ws ≡ w ∷ rest)
take_head n [] w e = cc
take_head n (x ∷ xs) w e = (take n xs, ground arith)

-- A command buffer of whole words whose size fits a `std::size_t`.
pub record IsBuffer (bytes : List ℕ) : Type 0 where
  pub whole : length bytes % 4 ≡ 0
  pub fits : length bytes ≤ u64_max

encoded_count_of-lt : (v : ℕ) → encoded_count_of v < 2 ^ 14
unfolding encoded_count_of
encoded_count_of-lt v = omega arith

parse_words :
    (bytes : List ℕ)
    → IsBuffer bytes
    → (offset n : ℕ) (w : RawPacketWord) (rest : List RawPacketWord) → 0 < n
    → offset + n ≤ length (words bytes)
    → read_words bytes offset n ≡ some (w ∷ rest)
    → parse_raw_packet bytes (record { word_offset = offset; word_count = n })
      ≡ some (
          success (record {
            extent = record { word_offset = offset; word_count = n };
            header = record { word_offset = offset; raw = w };
            raw_words = w ∷ rest;
          }))
unfolding parse_raw_packet
parse_words bytes buffer offset n w rest pos fits e =
    rw (aligned, nonempty, in_range, inside, ends, e)
  where
    size : length (words bytes) ≡ length bytes / 4
    size = length-words bytes

    aligned : (length bytes % 4 == 0) ≡ true
    aligned = eq→== (length bytes % 4) 0 buffer.whole

    nonempty : (n == 0) ≡ false
    nonempty = ne→== n 0 (omega arith)

    in_range : ltb (u64_max - n) offset ≡ false
    in_range = le→ltb (u64_max - n) offset (omega (arith, buffer.fits, size))

    inside : leb (length bytes / 4) offset ≡ false
    inside = lt→leb (length bytes / 4) offset (omega (arith, size))

    ends : ltb (length bytes / 4) (offset + n) ≡ false
    ends = le→ltb (length bytes / 4) (offset + n) (omega (arith, size))

module _ (bytes : List ℕ) (buffer : IsBuffer bytes) (offset : ℕ) (w : RawPacketWord)
    (here : get_elem? (drop offset (words bytes)) 0 ≡ some w) where
  header_read : read_little_endian_word bytes offset ≡ some (word_value w)
  unfolding read_little_endian_word
  header_read =
      rw (read_raw_word-words bytes offset) (rw (sym (get_elem?-drop offset (words bytes)) ∙ here))

  parsed :
      offset + frame_size w ≤ length (words bytes)
      → parse_raw_packet bytes (record { word_offset = offset; word_count = frame_size w })
        ≡ some (success (packet_of offset (drop offset (words bytes)) w))
  parsed h =
      let (rest, shape) =
        take_head (encoded_count_of (word_value w) + 1) (drop offset (words bytes)) w here in
      let size : frame_size w ≡ suc (encoded_count_of (word_value w) + 1) = omega arith in
      let head : take (frame_size w) (drop offset (words bytes)) ≡ w ∷ rest =
        ap (λ n. take n (drop offset (words bytes))) size ∙ shape in
      rw head (
        parse_words bytes buffer offset (frame_size w) w rest (omega arith) h
          (read_words-words bytes offset (frame_size w) h ∙ ap (λ ws. some ws) head))

  pub frame_fits :
      header_type_of (word_value w) ≡ 3
      → frame_size w ≤ length (drop offset (words bytes))
      → frame_at bytes (length bytes / 4) offset
        ≡ some (success (frame_of offset (drop offset (words bytes)) w))
  unfolding frame_at
  frame_fits t h = ground (
    arith,
    t,
    h,
    header_read,
    encoded_count_of-lt (word_value w),
    length-words bytes,
    length-drop offset (words bytes),
    parsed,
  )

  abbrev pub refusal : Pm4Type3FrameErrorCode → ℕ → Pm4Type3FrameError
  refusal code required = record {
    code = code;
    word_offset = offset;
    header_type = some (header_type_of (word_value w));
    required_words = required;
    available_words = length bytes / 4 - offset;
    packet_error = none;
  }

  pub type_refused :
      header_type_of (word_value w) ≢ 3
      → frame_at bytes (length bytes / 4) offset
        ≡ some (failure (refusal unsupported_packet_type 1))
  unfolding frame_at
  type_refused h = rw (header_read, ne→== (header_type_of (word_value w)) 3 h)

  pub size_refused :
      header_type_of (word_value w) ≡ 3
      → length (drop offset (words bytes)) < frame_size w
      → frame_at bytes (length bytes / 4) offset
        ≡ some (failure (refusal truncated_packet (frame_size w)))
  unfolding frame_at
  size_refused t h = rw (header_read, eq→== (header_type_of (word_value w)) 3 t, count, size)
    where
      count : ltb (u64_max - 2) (encoded_count_of (word_value w)) ≡ false
      count =
          le→ltb (u64_max - 2) (encoded_count_of (word_value w))
            (omega (arith, encoded_count_of-lt (word_value w)))

      size : ltb (length bytes / 4 - offset) (frame_size w) ≡ true
      size =
          lt→ltb (length bytes / 4 - offset) (frame_size w)
            (omega (arith, h, length-words bytes, length-drop offset (words bytes)))
