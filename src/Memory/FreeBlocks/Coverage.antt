-- ===== src/Memory/FreeBlocks/Coverage.antt =====
-- The free blocks cover what the regions cover and no occupied block does.
use quakernel.Base.{
  All-map, Any-map, ℕ, ◌+◌, ◌%◌, ◌^◌, ◌<◌, ◌≡◌, arith, ◌⊎◌, inl, inr, ◌↔◌, List, All,
}
use quakernel.Memory.Block.{MemBlock, end_addr, Covers, Fits, IsAligned, IsSortedByAddr}
use quakernel.Memory.FreeBlocks.Emission.{emit_free←}
use quakernel.Memory.FreeBlocks.AtLeast.{AddsAtLeast, IsBounded, emit-AtLeast}
use quakernel.Memory.FreeBlocks.Soundness.{emit_free_aligned_mem_blocks_sound}
use quakernel.Memory.FreeBlocks.{emit_free_aligned_mem_blocks}

abbrev pub IsGood : MemBlock → Type 0
IsGood b = IsAligned b × Fits b

abbrev pub IsWord : ℕ → Type 0
IsWord n = (n % 8 ≡ 0) × (n < 2 ^ 64)

pub end_addr-IsWord :
    (o : MemBlock) → IsGood o → IsWord (end_addr o) × (end_addr o ≡ o.base_addr + o.size)
end_addr-IsWord o g = omega arith

word-AddsAtLeast : AddsAtLeast 0 IsWord
word-AddsAtLeast start stop out a p q h =
    emit_free← (p.0, q.0) (p.1, q.1) out a
      (elim h [ inl old ↦ inl old | inr new ↦ inr (omega arith) ])

good-IsBounded : (b : MemBlock) → IsGood b → IsBounded 0 IsWord word-AddsAtLeast b
good-IsBounded b h = omega arith

-- Of word-aligned regions and word-aligned occupied blocks in address order, none of which wraps round
-- the end of the address space, the blocks in the output cover exactly the bytes that it covered
-- before and those that some region contains and no occupied block does.
pub emit_free_aligned_mem_blocks-Covers :
    (regions occupied out : List MemBlock) (a : ℕ)
    → All IsGood regions
    → All IsGood occupied
    → IsSortedByAddr occupied
    → Covers (emit_free_aligned_mem_blocks regions occupied out) a
      ↔ (Covers out a ⊎ (Covers regions a × (¬ Covers occupied a)))
emit_free_aligned_mem_blocks-Covers regions occupied out a rs good sorted = (
  emit_free_aligned_mem_blocks_sound regions occupied out a
      (All-map _ _ (λ b r. omega arith) regions rs) (All-map _ _ (λ b o. omega arith) occupied good)
      sorted,
  λ h.
      emit-AtLeast 0 IsWord word-AddsAtLeast regions occupied out a
        (All-map _ _ good-IsBounded regions rs) (All-map _ _ good-IsBounded occupied good)
        (elim h [
          | inl old ↦ inl old
          | inr new ↦ inr (
            Any-map _ _ (λ b c. omega arith) regions new.0,
            λ n. new.1 (Any-map _ _ (λ b c. omega arith) occupied n),
          )
        ]),
)
