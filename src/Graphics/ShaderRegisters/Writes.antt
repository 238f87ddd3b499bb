-- ===== src/Graphics/ShaderRegisters/Writes.antt =====
-- SET_SH_REG: what a lowered frame writes.
use astraea.Prelude.{
  le→ltb, eq→==, ==→ne, ne→==, leb→lt, lt→leb, ℕ, zero, suc, ◌+◌, ◌-◌, ◌*◌, ◌/◌, ◌%◌, ◌^◌, ◌≤◌, ◌<◌,
  ◌≡◌, refl, ◌∙◌, inl, inr, true, Option, none, some, List, [], ◌∷◌, map, arith, leb, ◌==◌,
  if◌then◌else◌, leb→le, le→leb, ==_iff, Bool-cases, length, get_elem?, drop, success,
}
use native.Mathlib.Numerals.{add-one}
use astraea.Graphics.Packet.{RawPacketWord, Pm4Type3Frame, word_value}
use astraea.Graphics.GraphicsIr.{
  GraphicsIrEmission, RegisterWriteRange, shader_register_write_range,
}
use astraea.Graphics.ShaderRegisters.{
  window, read_values, lower_range, lower_pm4_set_sh_reg_frame_to_graphics_ir, ShaderRegisterState,
  write_registers, apply_range, apply_shader_register_graphics_ir, program_address,
  resolve_pixel_program_address,
}

-- The value of a register after the values have been written from `start` on.
abbrev pub written : List ℕ → ℕ → ℕ → Option ℕ
written values start i = if leb start i then get_elem? values (i - start) else none

abbrev pub or_else : Option ℕ → ℕ → ℕ
or_else none x = x
or_else (some y) x = y

written_below : (v : ℕ) (vs : List ℕ) (start i : ℕ) → i < start → written (v ∷ vs) start i ≡ none
written_below v vs start i h = rw (lt→leb start i h) refl

written_at : (v : ℕ) (vs : List ℕ) (start i : ℕ) → i ≡ start → written (v ∷ vs) start i ≡ some v
written_at v vs start i h = rw (le→leb start i (omega (arith, h)), zero_gap) refl
  where
    zero_gap : i - start ≡ 0
    zero_gap = omega (arith, h)

written_above :
    (v : ℕ) (vs : List ℕ) (start i : ℕ)
    → start < i
    → written (v ∷ vs) start i ≡ written vs (start + 1) i
written_above v vs start i h =
    rw (le→leb start i (omega (arith, h)), le→leb (start + 1) i (omega (arith, h)), gap) refl
  where
    gap : i - start ≡ suc (i - (start + 1))
    gap = omega (arith, h)

written-none : (vs : List ℕ) (start i : ℕ) → i < start → written vs start i ≡ none
written-none vs start i h = rw (lt→leb start i h) refl

write_registers_lem :
    (state : ShaderRegisterState) (start i : ℕ) (values : List ℕ)
    → (write_registers state start values).values i
      ≡ or_else (written values start i) (state.values i)
unfolding write_registers
write_registers_lem state start i [] = elim (Bool-cases (leb start i)) [
  | inl h ↦ rw h refl
  | inr h ↦ rw h refl
]
write_registers_lem state start i (v ∷ vs) =
    write_registers_lem
      (record {
        values = λ j. if j == start then v else state.values j;
        initialized = λ j. if j == start then true else state.initialized j;
      })
      (start + 1) i vs
    ∙ (elim (Bool-cases (leb start i)) [
      | inr below ↦
          rw
            (
              written-none vs (start + 1) i (omega (arith, leb→lt start i below)),
              written_below v vs start i (leb→lt start i below),
              ne→== i start (λ e. omega (arith, e, leb→lt start i below)),
            )
            refl
      | inl reached ↦ elim (Bool-cases (i == start)) [
        | inl e ↦
            rw
              (
                written-none vs (start + 1) i (omega (arith, (==_iff i start).0 e)),
                written_at v vs start i ((==_iff i start).0 e),
                e,
              )
              refl
        | inr e ↦
            rw
              (
                written_above v vs start i (omega (arith, leb→le start i reached, ==→ne i start e)),
                e,
              )
              refl
      ]
    ])

-- A complete SET_SH_REG frame: its words are there, the word after the header names a register and
-- nothing else, and the values fit the window from there on.
pub record IsSetShReg (frame : Pm4Type3Frame) (w : RawPacketWord) : Type 0 where
  pub opcode_is : frame.header.opcode ≡ 0x76
  pub some_values : 0 < frame.header.encoded_count
  pub words_there : length frame.raw_packet.raw_words ≡ frame.header.encoded_count + 2
  pub total_is : frame.header.total_word_count ≡ frame.header.encoded_count + 2
  pub offset_word : get_elem? frame.raw_packet.raw_words 1 ≡ some w
  pub control_clear : word_value w / 2 ^ 16 % 2 ^ 16 ≡ 0
  pub in_window : word_value w % 2 ^ 16 + frame.header.encoded_count ≤ window

-- The values of the words from the third one on.
abbrev pub values_of : Pm4Type3Frame → List ℕ
values_of frame = map word_value (drop 2 frame.raw_packet.raw_words)

drop_cons :
    (words : List RawPacketWord) (w : RawPacketWord) (rest : List RawPacketWord) (index : ℕ)
    → drop index words ≡ w ∷ rest
    → (get_elem? words index ≡ some w) × (drop (suc index) words ≡ rest)
drop_cons [] w rest zero e = cc
drop_cons [] w rest (suc index) e = cc
drop_cons (x ∷ xs) w rest zero e = (cc, cc)
drop_cons (x ∷ xs) w rest (suc index) e = drop_cons xs w rest index e

read_values_lem :
    (words rest : List RawPacketWord) (index : ℕ)
    → drop index words ≡ rest
    → read_values words index (length rest) ≡ some (map word_value rest)
unfolding read_values
read_values_lem words [] index e = refl
read_values_lem words (w ∷ rest) index e =
    let (at, later) = drop_cons words w rest index e in
    rw at (rw (add-one index) (rw (read_values_lem words rest (suc index) later) refl))

length-map-words : (ws : List RawPacketWord) → length (map word_value ws) ≡ length ws
length-map-words [] = refl
length-map-words (w ∷ ws) = omega (arith, length-map-words ws)

length-drop-2 : (ws : List RawPacketWord) (n : ℕ) → length ws ≡ n + 2 → length (drop 2 ws) ≡ n
length-drop-2 [] n h = omega arith
length-drop-2 (a ∷ []) n h = omega arith
length-drop-2 (a ∷ b ∷ ws) n h = omega arith

abbrev pub write_of : Pm4Type3Frame → RawPacketWord → RegisterWriteRange
write_of frame w = record { start_offset = word_value w % 2 ^ 16; values = values_of frame }

lowered :
    (frame : Pm4Type3Frame) (w : RawPacketWord)
    → IsSetShReg frame w
    → lower_pm4_set_sh_reg_frame_to_graphics_ir frame
      ≡ some (
          success (record {
            operation = shader_register_write_range (write_of frame w);
            source_packet = frame.raw_packet;
          }))
unfolding lower_pm4_set_sh_reg_frame_to_graphics_ir lower_range
lowered frame w v =
    rw
      (
        eq→== frame.header.opcode 0x76 v.opcode_is,
        ne→== frame.header.encoded_count 0 (λ e. omega (arith, e, v.some_values)),
        eq→== (length frame.raw_packet.raw_words) (frame.header.encoded_count + 2) v.words_there,
        eq→== frame.header.total_word_count (frame.header.encoded_count + 2) v.total_is,
        v.offset_word,
        eq→== (word_value w / 2 ^ 16 % 2 ^ 16 * 2 ^ 16) 0 (omega (arith, v.control_clear)),
        lt→leb window (word_value w % 2 ^ 16) (omega (arith, v.some_values, v.in_window)),
        le→ltb (window - word_value w % 2 ^ 16) frame.header.encoded_count
            (omega (arith, v.in_window)),
        values_there,
      )
      refl
  where
    values_there :
        read_values frame.raw_packet.raw_words 2 frame.header.encoded_count ≡ some (values_of frame)
    values_there =
        rw (← length-drop-2 frame.raw_packet.raw_words frame.header.encoded_count v.words_there)
          (read_values_lem frame.raw_packet.raw_words (drop 2 frame.raw_packet.raw_words) 2 refl)

-- A complete SET_SH_REG frame is lowered, and what it is lowered to is applied: the registers from
-- the frame's offset on then hold the frame's values, and every other register keeps its value.
pub apply_range-lower_range :
    (frame : Pm4Type3Frame) (w : RawPacketWord) (state : ShaderRegisterState)
    → IsSetShReg frame w
    → (e : GraphicsIrEmission) × (after : ShaderRegisterState)
      × (lower_pm4_set_sh_reg_frame_to_graphics_ir frame ≡ some (success e))
      × (apply_shader_register_graphics_ir e state ≡ (
        success (record {
          start_offset = word_value w % 2 ^ 16;
          value_count = frame.header.encoded_count;
        }),
        after,
      ))
      × (length (values_of frame) ≡ frame.header.encoded_count)
      × ((i : ℕ)
          → after.values i
            ≡ or_else (written (values_of frame) (word_value w % 2 ^ 16) i) (state.values i))
unfolding apply_shader_register_graphics_ir apply_range
apply_range-lower_range frame w state v = (
  record {
    operation = shader_register_write_range (write_of frame w);
    source_packet = frame.raw_packet;
  },
  write_registers state (word_value w % 2 ^ 16) (values_of frame),
  lowered frame w v,
  rw
      (
        counted,
        lt→leb window (word_value w % 2 ^ 16) (omega (arith, v.some_values, v.in_window)),
        le→ltb (window - word_value w % 2 ^ 16) frame.header.encoded_count
            (omega (arith, v.in_window)),
      )
      refl,
  counted,
  λ i. write_registers_lem state (word_value w % 2 ^ 16) i (values_of frame),
)
  where
    counted : length (values_of frame) ≡ frame.header.encoded_count
    counted =
        length-map-words (drop 2 frame.raw_packet.raw_words)
        ∙ length-drop-2 frame.raw_packet.raw_words frame.header.encoded_count v.words_there

-- The address that two 32-bit registers give a program is a multiple of 256 below 2 ^ 48, and the
-- registers are read back from it.
pub resolve_pixel_program_address_lem :
    (state : ShaderRegisterState) (a : ℕ)
    → state.values 0x08 < 2 ^ 32
    → state.values 0x09 < 2 ^ 32
    → resolve_pixel_program_address state ≡ success a
    → (a < 2 ^ 48)
      × (a % 2 ^ 8 ≡ 0)
      × (a / 2 ^ 8 % 2 ^ 32 ≡ state.values 0x08)
      × (a / 2 ^ 40 ≡ state.values 0x09)
unfolding program_address
resolve_pixel_program_address_lem state a lo hi h = ground arith
