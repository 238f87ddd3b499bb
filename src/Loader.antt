-- ===== src/Loader.antt =====
-- The loader library: include/astraea/loader and src/loader.
mod Tests
pub mod Headers
pub mod Elf64
pub mod GuestImage
pub mod Dynamic
pub mod DynamicString
pub mod InitialStack
pub mod TlsTemplate
pub mod DynamicMetadata
pub mod SysvHash
pub mod GnuHash
pub mod DynamicSymbol
