-- ===== src/Mm.antt =====
-- The memory manager: the memory of memory-management/src/mm/alloc.c, and the family tree of
-- processes of syscalls.
pub mod Holes
pub mod Alloc
pub mod Report
pub mod Family
pub mod Calls
pub mod Setup
pub mod Boot
pub mod Swap
pub mod Chains
