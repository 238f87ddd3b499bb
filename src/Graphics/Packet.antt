-- ===== src/Graphics/Packet.antt =====
-- include/astraea/graphics/packet.hpp, src/graphics/packet.cpp,
-- include/astraea/graphics/pm4_type3_framing.hpp and src/graphics/pm4_type3_framing.cpp: raw
-- packets, and a command buffer cut into type-3 frames. A `none` is an index outside the command
-- buffer, or a loop that has used up its fuel. Running out of host memory is not modelled.
pub mod Words
pub mod Framing
pub mod Contents
pub mod Stream
use astraea.Prelude.{
  ℕ, zero, suc, ◌+◌, ◌-◌, ◌*◌, ◌/◌, ◌%◌, ◌^◌, ◌≤◌, ◌<◌, min, max, bit_and, bit_or, ◌≡◌, refl, sym,
  ap, ◌∙◌, ◌≢◌, ◌↔◌, ◌⊎◌, inl, inr, Bool, true, false, not, ◌&&◌, ◌||◌, Option, none, some, List,
  [], ◌∷◌, ◌++◌, map, arith, ltb, leb, ◌==◌, if◌then◌else◌, u64_max, u32_max, ltb→lt, lt→ltb,
  leb→le, le→leb, ==_iff, Bool-cases, Option-cases, length, get_elem?, take, drop, any,
  length-append, get_elem?-lt, get_elem?-ge, All, All-append, Any, Result, success, failure,
  has_value, Result-cases, fail_if, >>=-eq-success,
}

-- Four bytes, in the order of the buffer.
pub record RawPacketWord : Type 0 where
  pub byte0 : ℕ
  pub byte1 : ℕ
  pub byte2 : ℕ
  pub byte3 : ℕ

pub data PacketErrorCode : Type 0 where
  command_buffer_not_word_aligned empty_packet packet_range_overflow : PacketErrorCode
  packet_range_out_of_bounds host_allocation_failure : PacketErrorCode

pub record PacketError : Type 0 where
  pub code : PacketErrorCode
  pub word_offset : ℕ
  pub word_count : ℕ

pub record PacketExtent : Type 0 where
  pub word_offset : ℕ
  pub word_count : ℕ

pub record PacketHeader : Type 0 where
  pub word_offset : ℕ
  pub raw : RawPacketWord

-- `kind` has the one value `unknown`, and is left out.
pub record RawPacket : Type 0 where
  pub extent : PacketExtent
  pub header : PacketHeader
  pub raw_words : List RawPacketWord

abbrev pub packet_error : PacketErrorCode → PacketExtent → PacketError
packet_error code extent = record {
  code = code;
  word_offset = extent.word_offset;
  word_count = extent.word_count;
}

-- A read that leaves the buffer ends the call.
infixl 5 ◌>>=◌
abbrev pub ◌>>=◌ {ℓ κ} : {A : Type ℓ} {B : Type κ} → Option A → (A → Option B) → Option B
none >>= f = none
some a >>= f = f a

unfoldable pub read_raw_word : List ℕ → ℕ → Option RawPacketWord
read_raw_word command_buffer word_index = do
  let byte_offset = word_index * 4
  b0 ← get_elem? command_buffer byte_offset
  b1 ← get_elem? command_buffer (byte_offset + 1)
  b2 ← get_elem? command_buffer (byte_offset + 2)
  b3 ← get_elem? command_buffer (byte_offset + 3)
  some (record { byte0 = b0; byte1 = b1; byte2 = b2; byte3 = b3 })

-- The loop that fills `raw_words`, from word `offset` on.
unfoldable pub read_words : List ℕ → ℕ → ℕ → Option (List RawPacketWord)
read_words command_buffer offset zero = some []
read_words command_buffer offset (suc count) = do
  w ← read_raw_word command_buffer offset
  ws ← read_words command_buffer (offset + 1) count
  some (w ∷ ws)

abbrev raw_packet : PacketExtent → List RawPacketWord → Option (Result RawPacket PacketError)
raw_packet extent [] = none
raw_packet extent (w ∷ ws) =
    let header : PacketHeader = record { word_offset = extent.word_offset; raw = w } in
    some (success (record { extent = extent; header = header; raw_words = w ∷ ws }))

unfoldable pub parse_raw_packet : List ℕ → PacketExtent → Option (Result RawPacket PacketError)
parse_raw_packet command_buffer extent =
    let available_words = length command_buffer / 4 in
    let packet_end = extent.word_offset + extent.word_count in
    if not (length command_buffer % 4 == 0)
    then some (failure (packet_error command_buffer_not_word_aligned extent))
    else if extent.word_count == 0
    then some (failure (packet_error empty_packet extent))
    else if ltb (u64_max - extent.word_count) extent.word_offset
    then some (failure (packet_error packet_range_overflow extent))
    else if leb available_words extent.word_offset || ltb available_words packet_end
    then some (failure (packet_error packet_range_out_of_bounds extent))
    else (read_words command_buffer extent.word_offset extent.word_count >>= raw_packet extent)

pub record Pm4Type3Header : Type 0 where
  pub raw_word : ℕ
  pub opcode : ℕ
  pub encoded_count : ℕ
  pub low_control_bits : ℕ
  pub body_word_count : ℕ
  pub total_word_count : ℕ

pub record Pm4Type3Frame : Type 0 where
  pub word_offset : ℕ
  pub header : Pm4Type3Header
  pub raw_packet : RawPacket

-- `frame_not_word_aligned` and `frame_allocation_failure` are the source's
-- `command_buffer_not_word_aligned` and `host_allocation_failure`, which PacketErrorCode has too.
pub data Pm4Type3FrameErrorCode : Type 0 where
  frame_not_word_aligned unsupported_packet_type truncated_packet : Pm4Type3FrameErrorCode
  host_size_unrepresentable raw_packet_failure frame_allocation_failure : Pm4Type3FrameErrorCode

pub record Pm4Type3FrameError : Type 0 where
  pub code : Pm4Type3FrameErrorCode
  pub word_offset : ℕ
  pub header_type : Option ℕ
  pub required_words : ℕ
  pub available_words : ℕ
  pub packet_error : Option PacketError

-- The bytes of a word do not overlap, so that `|=` adds them up.
unfoldable pub word_value : RawPacketWord → ℕ
word_value w = w.byte0 + w.byte1 * 2 ^ 8 + w.byte2 * 2 ^ 16 + w.byte3 * 2 ^ 24

unfoldable pub read_little_endian_word : List ℕ → ℕ → Option ℕ
read_little_endian_word bytes word_offset =
    read_raw_word bytes word_offset >>= λ w. some (word_value w)

-- `(raw_header >> shift) & mask`, for a mask of ones.
unfoldable pub header_type_of : ℕ → ℕ
header_type_of w = w / 2 ^ 30 % 4

unfoldable pub encoded_count_of : ℕ → ℕ
encoded_count_of w = w / 2 ^ 16 % 2 ^ 14

unfoldable pub type3_header : ℕ → Pm4Type3Header
type3_header raw_header = record {
  raw_word = raw_header;
  opcode = raw_header / 2 ^ 8 % 2 ^ 8;
  encoded_count = encoded_count_of raw_header;
  low_control_bits = raw_header % 2 ^ 8;
  body_word_count = encoded_count_of raw_header + 1;
  total_word_count = encoded_count_of raw_header + 2;
}

-- One round of the loop, up to `push_back`: the frame at the offset, or the error.
unfoldable pub frame_at : List ℕ → ℕ → ℕ → Option (Result Pm4Type3Frame Pm4Type3FrameError)
frame_at command_buffer stream_word_count word_offset =
    read_little_endian_word command_buffer word_offset >>= λ raw_header.
    let header_type = header_type_of raw_header in
    let available_words = stream_word_count - word_offset in
    let total_word_count = encoded_count_of raw_header + 2 in
    let fail : Pm4Type3FrameErrorCode → ℕ → Option PacketError → Pm4Type3FrameError =
      λ code required packet. record {
        code = code;
        word_offset = word_offset;
        header_type = some header_type;
        required_words = required;
        available_words = available_words;
        packet_error = packet;
      } in
    let extent : PacketExtent = record {
      word_offset = word_offset;
      word_count = total_word_count;
    } in
    if not (header_type == 3)
    then some (failure (fail unsupported_packet_type 1 none))
    else if ltb (u64_max - 2) (encoded_count_of raw_header)
    then some (failure (fail host_size_unrepresentable 0 none))
    else if ltb available_words total_word_count
    then some (failure (fail truncated_packet total_word_count none))
    else (elim (parse_raw_packet command_buffer extent) [
      | none ↦ none
      | some (failure e) ↦ some (failure (fail raw_packet_failure total_word_count (some e)))
      | some (success packet) ↦ some (
          success (record {
            word_offset = word_offset;
            header = type3_header raw_header;
            raw_packet = packet;
          }))
    ])

-- The `while` loop. Each round takes two words at least.
unfoldable pub frame_loop :
    List ℕ → ℕ → ℕ → ℕ → Option (Result (List Pm4Type3Frame) Pm4Type3FrameError)
frame_loop command_buffer stream_word_count zero word_offset =
    if ltb word_offset stream_word_count then none else some (success [])
frame_loop command_buffer stream_word_count (suc fuel) word_offset =
    elim (ltb word_offset stream_word_count) [
      | false ↦ some (success [])
      | true ↦ elim (frame_at command_buffer stream_word_count word_offset) [
        | none ↦ none
        | some (failure e) ↦ some (failure e)
        | some (success frame) ↦
            elim (frame_loop command_buffer stream_word_count fuel
              (word_offset + frame.header.total_word_count)) [
                | none ↦ none
                | some (failure e) ↦ some (failure e)
                | some (success frames) ↦ some (success (frame ∷ frames))
              ]
      ]
    ]

abbrev not_aligned : Pm4Type3FrameError
not_aligned = record {
  code = frame_not_word_aligned;
  word_offset = 0;
  header_type = none;
  required_words = 0;
  available_words = 0;
  packet_error = none;
}

unfoldable pub frame_pm4_type3_stream :
    List ℕ → Option (Result (List Pm4Type3Frame) Pm4Type3FrameError)
frame_pm4_type3_stream command_buffer =
    let stream_word_count = length command_buffer / 4 in
    let stream = frame_loop command_buffer stream_word_count stream_word_count 0 in
    if not (length command_buffer % 4 == 0) then some (failure not_aligned) else stream
