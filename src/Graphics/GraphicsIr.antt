-- ===== src/Graphics/GraphicsIr.antt =====
-- include/astraea/graphics/graphics_ir.hpp and src/graphics/graphics_ir.cpp: what a packet means.
use astraea.Prelude.{ℕ, List}
use astraea.Graphics.Packet.{RawPacket}

pub data GraphicsIrUnsupportedReason : Type 0 where
  packet_semantics_unknown : GraphicsIrUnsupportedReason

-- The start offset and the values of a range of registers.
pub record RegisterWriteRange : Type 0 where
  pub start_offset : ℕ
  pub values : List ℕ

pub data GraphicsIrOperation : Type 0 where
  unsupported : GraphicsIrUnsupportedReason → GraphicsIrOperation
  shader_register_write_range : RegisterWriteRange → GraphicsIrOperation
  context_register_write_range : RegisterWriteRange → GraphicsIrOperation
  user_config_register_write_range : RegisterWriteRange → GraphicsIrOperation
  set_instance_count : ℕ → GraphicsIrOperation
  draw_index_auto : ℕ → ℕ → GraphicsIrOperation
  gpu_memory_write : ℕ → List ℕ → GraphicsIrOperation

-- `source_packet` is the provenance.
pub record GraphicsIrEmission : Type 0 where
  pub operation : GraphicsIrOperation
  pub source_packet : RawPacket

unfoldable pub make_unsupported_packet_ir : RawPacket → GraphicsIrEmission
make_unsupported_packet_ir packet = record {
  operation = unsupported packet_semantics_unknown;
  source_packet = packet;
}
