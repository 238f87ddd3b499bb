-- ===== src/Execution.antt =====
-- The execution library: include/astraea/execution and src/execution.
pub mod MemoryPlan
pub mod GuestMemory
pub mod Prepared
mod Tests
pub mod Worker
