-- ===== src/Memory.antt =====
-- The guest memory library: include/astraea/memory and src/memory.
pub mod Address
pub mod Permissions
pub mod Mapping
pub mod ImageView
mod Tests
