-- ===== src/Graphics/Tests.antt =====
-- The graphics library on two allocations, and on a command buffer of one frame.
use astraea.Prelude.{
  ◌/◌, true, ◌%◌, length, ◌==◌, ◌^◌, some, if◌then◌else◌, false, ℕ, ◌+◌, ◌≤◌, ◌<◌, ◌≡◌, refl, ◌⊎◌,
  inl, inr, none, List, [], ◌∷◌, ◌++◌, arith, u64_max, All, success, failure,
}
use astraea.Graphics.AllocationSpace.{
  checked_end, meets_request, contains_request, resolve_loop, AddressSpace,
  GuestGpuAllocationResolution, RegistrationError, register_allocation, resolve_range,
  resolution_error, unmapped_range,
}
use astraea.Graphics.AllocationSpace.Register.{
  IsSpace, Apart, candidate, register_allocation-IsSpace, register_allocation_iff,
}
use astraea.Graphics.AllocationSpace.Resolve.{
  resolve_range_iff, resolve_range_unmapped, resolve_range-register_allocation,
}
use astraea.Graphics.Packet.{
  Pm4Type3Frame, RawPacketWord, type3_header, encoded_count_of, header_type_of, word_value,
  read_little_endian_word, read_raw_word, read_words, parse_raw_packet, frame_at, frame_loop,
  frame_pm4_type3_stream,
}
use astraea.Graphics.GraphicsIr.{GraphicsIrEmission}
use astraea.Graphics.ShaderRegisters.{
  ShaderRegisterState, lower_pm4_set_sh_reg_frame_to_graphics_ir, apply_shader_register_graphics_ir,
  program_address,
}
use astraea.Graphics.ShaderRegisters.Writes.{
  IsSetShReg, values_of, or_else, written, apply_range-lower_range,
  resolve_pixel_program_address_lem,
}
use astraea.Graphics.Packet.Words.{words, bytes_of}
use astraea.Graphics.Packet.Framing.{IsBuffer, frame_of}
use astraea.Graphics.Packet.Stream.{Outcome, frame_pm4_type3_stream-Outcome}
use astraea.Graphics.Packet.Contents.{raw_words_of, bytes_of-frame_pm4_type3_stream}

abbrev two_allocations : AddressSpace
two_allocations =
    record { id = 0; base = 100; byte_size = 50 }
    ∷ record { id = 1; base = 200; byte_size = 8 }
    ∷ []

two_allocations-IsSpace : IsSpace two_allocations
two_allocations-IsSpace = record {
  fit = (
    record { positive = omega arith; below = omega arith },
    (record { positive = omega arith; below = omega arith }, tt),
  );
  apart = ((inr (omega arith), tt), (tt, tt));
  numbered = (refl, (refl, tt));
}

register_allocation-IsSpace_example : IsSpace (register_allocation two_allocations 150 50).1
register_allocation-IsSpace_example =
    register_allocation-IsSpace two_allocations 150 50 two_allocations-IsSpace (omega arith)

register_allocation_iff_example :
    ((register_allocation two_allocations 149 50
        ≡ (success 2, two_allocations ++ (candidate two_allocations 149 50 ∷ [])))
      × (0 < 50)
      × (149 + 50 ≤ u64_max)
      × All (Apart 149 50) two_allocations)
    ⊎ ((e : RegistrationError) × (register_allocation two_allocations 149 50
          ≡ (failure e, two_allocations))
        × ¬ ((0 < 50) × (149 + 50 ≤ u64_max) × All (Apart 149 50) two_allocations))
register_allocation_iff_example =
    register_allocation_iff two_allocations 149 50 two_allocations-IsSpace (omega arith)

abbrev second_half : GuestGpuAllocationResolution
second_half = record { allocation_id = 1; byte_offset = 4; byte_count = 4 }

resolve_range_iff_example : resolve_range two_allocations 204 4 ≡ success second_half
resolve_range_iff_example =
    (resolve_range_iff two_allocations 204 4 second_half two_allocations-IsSpace (omega arith)).1
      (omega arith, inr (inl (omega arith, omega arith, refl, refl, refl)))

resolve_range_unmapped_example :
    resolve_range two_allocations 150 50 ≡ failure (resolution_error unmapped_range 150 50 none)
resolve_range_unmapped_example =
    (resolve_range_unmapped two_allocations 150 50 two_allocations-IsSpace (omega arith)
        (omega arith)).1
      (inl (omega arith), (inr (omega arith), tt))

resolve_second_half : resolve_range two_allocations 204 4 ≡ success second_half
unfolding resolve_range resolve_loop contains_request meets_request checked_end
resolve_second_half = refl

resolve_range-register_allocation_example :
    resolve_range (register_allocation two_allocations 208 8).1 204 4 ≡ success second_half
resolve_range-register_allocation_example =
    resolve_range-register_allocation two_allocations 204 4 208 8 second_half
      two_allocations-IsSpace (omega arith) (omega arith) resolve_second_half

-- The header 0xC0001000, and one word of body.
abbrev nop : List ℕ
nop = 0 ∷ 16 ∷ 0 ∷ 192 ∷ 1 ∷ 2 ∷ 3 ∷ 4 ∷ []

nop-IsBuffer : IsBuffer nop
nop-IsBuffer = record { whole = refl; fits = omega arith }

frame_pm4_type3_stream-Outcome_example : Outcome 0 (words nop) (frame_pm4_type3_stream nop)
frame_pm4_type3_stream-Outcome_example = frame_pm4_type3_stream-Outcome nop nop-IsBuffer

bytes_of-frame_pm4_type3_stream_example :
    bytes_of (
      raw_words_of
        (frame_of 0 (words nop) (record { byte0 = 0; byte1 = 16; byte2 = 0; byte3 = 192 }) ∷ []))
    ≡ nop
unfolding frame_pm4_type3_stream frame_loop frame_at parse_raw_packet read_words read_raw_word
    read_little_endian_word word_value header_type_of encoded_count_of type3_header
bytes_of-frame_pm4_type3_stream_example = bytes_of-frame_pm4_type3_stream nop _ nop-IsBuffer refl

abbrev word : ℕ → ℕ → ℕ → ℕ → RawPacketWord
word a b c d = record { byte0 = a; byte1 = b; byte2 = c; byte3 = d }

-- SET_SH_REG of the pixel program's address: two values from register 8 on.
abbrev pixel_frame : Pm4Type3Frame
pixel_frame = record {
  word_offset = 0;
  header = record {
    raw_word = 0xc0027600;
    opcode = 0x76;
    encoded_count = 2;
    low_control_bits = 0;
    body_word_count = 3;
    total_word_count = 4;
  };
  raw_packet = record {
    extent = record { word_offset = 0; word_count = 4 };
    header = record { word_offset = 0; raw = word 0 0x76 2 0xc0 };
    raw_words = word 0 0x76 2 0xc0 ∷ word 8 0 0 0 ∷ word 1 2 0 0 ∷ word 3 0 0 0 ∷ [];
  };
}

abbrev reset : ShaderRegisterState
reset = record { values = λ i. 0; initialized = λ i. false }

abbrev pixel_state : ShaderRegisterState
pixel_state = record { values = λ i. if i == 8 then 513 else 3; initialized = λ i. true }

pixel_frame-IsSetShReg : IsSetShReg pixel_frame (word 8 0 0 0)
unfolding word_value
pixel_frame-IsSetShReg = record {
  opcode_is = refl;
  some_values = omega arith;
  words_there = refl;
  total_is = refl;
  offset_word = refl;
  control_clear = refl;
  in_window = omega arith;
}

apply_range-lower_range_example :
    (e : GraphicsIrEmission) × (after : ShaderRegisterState)
    × (lower_pm4_set_sh_reg_frame_to_graphics_ir pixel_frame ≡ some (success e))
    × (apply_shader_register_graphics_ir e reset
        ≡ (success (record { start_offset = 8; value_count = 2 }), after))
    × (length (values_of pixel_frame) ≡ 2)
    × ((i : ℕ) → after.values i ≡ or_else (written (values_of pixel_frame) 8 i) 0)
unfolding word_value
apply_range-lower_range_example =
    apply_range-lower_range pixel_frame (word 8 0 0 0) reset pixel_frame-IsSetShReg

resolve_pixel_program_address_lem_example :
    (3298534883328 + 131328 < 2 ^ 48)
    × ((3298534883328 + 131328) % 2 ^ 8 ≡ 0)
    × ((3298534883328 + 131328) / 2 ^ 8 % 2 ^ 32 ≡ 513)
    × ((3298534883328 + 131328) / 2 ^ 40 ≡ 3)
unfolding program_address
resolve_pixel_program_address_lem_example =
    resolve_pixel_program_address_lem pixel_state (3298534883328 + 131328) (omega arith)
      (omega arith) refl
