-- ===== src/Memory/Block.antt =====
-- `mem_block_t`, its order by address (kernel/src/memory/memory.h), and the addresses of a block.
use quakernel.Base.{
  ℕ, ◌+◌, ◌%◌, ◌^◌, ◌≤◌, ◌<◌, ◌≡◌, ltb, if◌then◌else◌, List, [], ◌∷◌, All, Any, add64,
}
use quakernel.Base.Int.{ℤ, pos, negsuc}

pub record MemBlock : Type 0 where
  pub base_addr : ℕ
  pub size : ℕ

-- `MemCompareBlocksByAddr`
unfoldable pub compare_blocks_by_addr : MemBlock → MemBlock → ℤ
compare_blocks_by_addr a b =
    if ltb a.base_addr b.base_addr
    then negsuc 0
    else if ltb b.base_addr a.base_addr
    then pos 1
    else pos 0

-- `baseAddr + size`
abbrev pub end_addr : MemBlock → ℕ
end_addr b = add64 b.base_addr b.size

-- The byte at address `a` belongs to the block, or to one of the blocks.
abbrev pub Contains : ℕ → MemBlock → Type 0
Contains a b = (b.base_addr ≤ a) × (a < b.base_addr + b.size)

abbrev pub Covers : List MemBlock → ℕ → Type 0
Covers blocks a = Any (Contains a) blocks

-- The block ends within the address space.
abbrev pub Fits : MemBlock → Type 0
Fits b = b.base_addr + b.size < 2 ^ 64

abbrev pub IsAligned : MemBlock → Type 0
IsAligned b = (b.base_addr % 8 ≡ 0) × (b.size % 8 ≡ 0)

-- The blocks stand in the order of their addresses.
abbrev pub IsSortedByAddr : List MemBlock → Type 0
IsSortedByAddr [] = Unit
IsSortedByAddr (b ∷ bs) = All (λ c. b.base_addr ≤ c.base_addr) bs × IsSortedByAddr bs
