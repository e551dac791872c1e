-- ===== src/Memory/Arena.antt =====
-- The linear arena of kernel/src/memory/linear_arena.c. An operation that changes `*linearArena`
-- returns the new arena beside its result; the null pointer is `none`.
pub mod Laws
use quakernel.Base.{ℕ, Option, none, some, ltb, if◌then◌else◌, add64}
use quakernel.Memory.Block.{MemBlock}

pub record LinearArena : Type 0 where
  pub mem_block : MemBlock
  pub used : ℕ

-- `MemLinearArenaCreate`
unfoldable pub create : MemBlock → LinearArena
create mem_block = record { mem_block = mem_block; used = 0 }

-- `MemLinearArenaAlloc`
unfoldable pub alloc : LinearArena → ℕ → Option ℕ × LinearArena
alloc arena size_in_bytes =
    if ltb arena.mem_block.size (add64 arena.used size_in_bytes) then (none, arena) else (
      some (add64 arena.mem_block.base_addr arena.used),
      record arena { used = add64 arena.used size_in_bytes },
    )

-- `MemLinearReset`
unfoldable pub reset : LinearArena → LinearArena
reset arena = record arena { used = 0 }
