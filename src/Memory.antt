-- ===== src/Memory.antt =====
-- kernel/src/memory: blocks of physical memory, alignment, the linear arena, and the free blocks that
-- are left of the RAM regions.
pub mod Align
pub mod Block
pub mod Size
pub mod Arena
pub mod FreeBlocks
pub mod Sorting
pub mod Handover
pub mod Arenas
