-- ===== src/Graphics.antt =====
-- The graphics library: include/astraea/graphics and src/graphics.
pub mod AllocationSpace
pub mod Packet
pub mod GraphicsIr
pub mod ShaderRegisters
mod Tests
