-- ===== src/Graphics/ShaderRegisters.antt =====
-- include/astraea/graphics/pm4_set_sh_reg_ir.hpp, shader_register_state.hpp and their sources: a
-- SET_SH_REG frame becomes a range of shader registers, which is written. `none` is an index
-- outside the words of the frame. Running out of host memory is not modelled.
pub mod Writes
use astraea.Prelude.{
  ℕ, zero, suc, ◌+◌, ◌-◌, ◌*◌, ◌/◌, ◌%◌, ◌^◌, ◌≤◌, ◌<◌, min, max, bit_and, bit_or, ◌≡◌, refl, sym,
  ap, ◌∙◌, ◌≢◌, ◌↔◌, ◌⊎◌, inl, inr, Bool, true, false, not, ◌&&◌, ◌||◌, Option, none, some, List,
  [], ◌∷◌, ◌++◌, map, arith, ltb, leb, ◌==◌, if◌then◌else◌, u64_max, u32_max, ltb→lt, lt→ltb,
  leb→le, le→leb, ==_iff, Bool-cases, Option-cases, length, get_elem?, take, drop, any,
  length-append, get_elem?-lt, get_elem?-ge, All, All-append, Any, Result, success, failure,
  has_value, Result-cases, fail_if, >>=-eq-success,
}
use astraea.Graphics.Packet.{RawPacketWord, Pm4Type3Frame, word_value, ◌>>=◌}
use astraea.Graphics.GraphicsIr.{
  GraphicsIrUnsupportedReason, GraphicsIrEmission, GraphicsIrOperation, RegisterWriteRange,
  unsupported, shader_register_write_range, context_register_write_range,
  user_config_register_write_range, set_instance_count, draw_index_auto, gpu_memory_write,
  make_unsupported_packet_ir,
}

-- kPm4ShaderRegisterWindowDwords.
abbrev pub window : ℕ
window = 0x400

pub data LowerErrorCode : Type 0 where
  malformed_set_sh_reg unsupported_register_control_bits : LowerErrorCode
  register_range_out_of_bounds host_allocation_failure : LowerErrorCode

pub record LowerError : Type 0 where
  pub code : LowerErrorCode
  pub word_offset : ℕ
  pub raw_offset_control_word : ℕ
  pub value_count : ℕ

abbrev pub lower_error : LowerErrorCode → Pm4Type3Frame → ℕ → ℕ → LowerError
lower_error code frame control count = record {
  code = code;
  word_offset = frame.word_offset;
  raw_offset_control_word = control;
  value_count = count;
}

-- The loop over the words from `index` on.
unfoldable pub read_values : List RawPacketWord → ℕ → ℕ → Option (List ℕ)
read_values raw_words index zero = some []
read_values raw_words index (suc count) =
    let later = read_values raw_words (index + 1) count in
    get_elem? raw_words index >>= λ w. later >>= λ values. some (word_value w ∷ values)

-- What follows once the word of the offset is read.
unfoldable pub lower_range : Pm4Type3Frame → ℕ → Option (Result GraphicsIrEmission LowerError)
lower_range frame offset_control_word =
    let value_count = frame.header.encoded_count in
    let control_bits = offset_control_word / 2 ^ 16 % 2 ^ 16 * 2 ^ 16 in
    let start = offset_control_word % 2 ^ 16 in
    let range : List ℕ → RegisterWriteRange =
      λ values. record { start_offset = start; values = values } in
    let emission : List ℕ → GraphicsIrEmission = λ values. record {
      operation = shader_register_write_range (range values);
      source_packet = frame.raw_packet;
    } in
    if not (control_bits == 0)
    then some (
        failure
          (lower_error unsupported_register_control_bits frame offset_control_word value_count))
    else if leb window start || ltb (window - start) value_count
    then some
        (failure (lower_error register_range_out_of_bounds frame offset_control_word value_count))
    else (read_values frame.raw_packet.raw_words 2 value_count >>= λ values.
        some (success (emission values)))

unfoldable pub lower_pm4_set_sh_reg_frame_to_graphics_ir :
    Pm4Type3Frame → Option (Result GraphicsIrEmission LowerError)
lower_pm4_set_sh_reg_frame_to_graphics_ir frame =
    let value_count = frame.header.encoded_count in
    if not (frame.header.opcode == 0x76)
    then some (success (make_unsupported_packet_ir frame.raw_packet))
    else if value_count == 0
        || not (length frame.raw_packet.raw_words == value_count + 2)
        || not (frame.header.total_word_count == value_count + 2)
    then some (failure (lower_error malformed_set_sh_reg frame 0 value_count))
    else (get_elem? frame.raw_packet.raw_words 1 >>= λ w. lower_range frame (word_value w))

-- The array and the bit set, by their index, which is below the window's size.
pub record ShaderRegisterState : Type 0 where
  pub values : ℕ → ℕ
  pub initialized : ℕ → Bool

pub record WriteEffect : Type 0 where
  pub start_offset : ℕ
  pub value_count : ℕ

pub data ApplyErrorCode : Type 0 where
  unsupported_operation range_out_of_bounds : ApplyErrorCode

-- `range_out_of_bounds` is the source's second `register_range_out_of_bounds`.
pub record ApplyError : Type 0 where
  pub code : ApplyErrorCode
  pub start_offset : ℕ
  pub value_count : ℕ
  pub unsupported_reason : Option GraphicsIrUnsupportedReason

abbrev pub apply_error : ApplyErrorCode → ℕ → ℕ → Option GraphicsIrUnsupportedReason → ApplyError
apply_error code start count reason = record {
  code = code;
  start_offset = start;
  value_count = count;
  unsupported_reason = reason;
}

-- The loop of stores, from `destination` on.
unfoldable pub write_registers : ShaderRegisterState → ℕ → List ℕ → ShaderRegisterState
write_registers state destination [] = state
write_registers state destination (v ∷ vs) =
    let stored : ShaderRegisterState = record {
      values = λ i. if i == destination then v else state.values i;
      initialized = λ i. if i == destination then true else state.initialized i;
    } in
    write_registers stored (destination + 1) vs

unfoldable pub apply_range :
    RegisterWriteRange → ShaderRegisterState → Result WriteEffect ApplyError × ShaderRegisterState
apply_range write state =
    let start = write.start_offset in
    let count = length write.values in
    if leb window start || ltb (window - start) count
    then (failure (apply_error range_out_of_bounds start count none), state)
    else (
      success (record { start_offset = start; value_count = count }),
      write_registers state start write.values,
    )

-- The result with the state that the call leaves.
unfoldable pub apply_shader_register_graphics_ir :
    GraphicsIrEmission → ShaderRegisterState → Result WriteEffect ApplyError × ShaderRegisterState
apply_shader_register_graphics_ir emission state = elim emission.operation [
  | unsupported reason ↦ (failure (apply_error unsupported_operation 0 0 (some reason)), state)
  | shader_register_write_range write ↦ apply_range write state
  | context_register_write_range write ↦
      (failure (apply_error unsupported_operation 0 0 none), state)
  | user_config_register_write_range write ↦
      (failure (apply_error unsupported_operation 0 0 none), state)
  | set_instance_count count ↦ (failure (apply_error unsupported_operation 0 0 none), state)
  | draw_index_auto count initiator ↦ (failure (apply_error unsupported_operation 0 0 none), state)
  | gpu_memory_write destination values ↦
      (failure (apply_error unsupported_operation 0 0 none), state)
]

pub data ProgramAddressErrorCode : Type 0 where
  pgm_lo_uninitialized pgm_hi_uninitialized unsupported_pgm_hi_bits : ProgramAddressErrorCode

pub record ProgramAddressError : Type 0 where
  pub code : ProgramAddressErrorCode
  pub pgm_lo : ℕ
  pub pgm_hi : ℕ

abbrev pub address_error : ProgramAddressErrorCode → ℕ → ℕ → ProgramAddressError
address_error code lo hi = record { code = code; pgm_lo = lo; pgm_hi = hi }

-- The registers have 32 bits, so that the shifted parts do not overlap and `|` adds them.
unfoldable pub program_address : ShaderRegisterState → ℕ → ℕ → Result ℕ ProgramAddressError
program_address state lo_index hi_index =
    let lo = state.values lo_index in
    let hi = state.values hi_index in
    if not (state.initialized lo_index)
    then failure (address_error pgm_lo_uninitialized 0 0)
    else if not (state.initialized hi_index)
    then failure (address_error pgm_hi_uninitialized lo 0)
    else if not (hi / 2 ^ 8 * 2 ^ 8 == 0)
    then failure (address_error unsupported_pgm_hi_bits lo hi)
    else success (lo * 2 ^ 8 + hi % 2 ^ 8 * 2 ^ 40)

abbrev pub resolve_pixel_program_address : ShaderRegisterState → Result ℕ ProgramAddressError
resolve_pixel_program_address state = program_address state 0x08 0x09

abbrev pub resolve_geometry_es_program_address : ShaderRegisterState → Result ℕ ProgramAddressError
resolve_geometry_es_program_address state = program_address state 0xc8 0xc9
