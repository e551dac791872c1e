-- ===== src/Memory/FreeBlocks/Soundness.antt =====
-- What the free blocks can at most contain, when the inputs are aligned only in part or not at all.
use quakernel.Base.{
  Any-map, All-map, ℕ, ◌+◌, ◌%◌, ◌^◌, ◌≤◌, ◌<◌, ◌≡◌, arith, ◌⊎◌, inl, inr, List, All, Any, sub64,
}
use quakernel.Memory.Align.{align_down-word, align_up-word, align_up_lem}
use quakernel.Memory.Block.{MemBlock, Covers, Fits, IsSortedByAddr}
use quakernel.Memory.FreeBlocks.{emit_free_aligned_mem_blocks}
use quakernel.Memory.FreeBlocks.Emission.{emit_free-adds}
use quakernel.Memory.FreeBlocks.AtLeast.{AddsAtLeast, IsInside, IsNear, IsBounded, emit-AtLeast}
use quakernel.Memory.FreeBlocks.AtMost.{AddsAtMost, ContainsBehind, Reaches, emit-AtMost}

-- A block that begins on a word, and one that ends on a word, inside the address space.
abbrev pub BeginsOnWord : MemBlock → Type 0
BeginsOnWord b = (b.base_addr % 8 ≡ 0) × Fits b

abbrev pub EndsOnWord : MemBlock → Type 0
EndsOnWord b = ((b.base_addr + b.size) % 8 ≡ 0) × Fits b

abbrev IsWordAddr : ℕ → Type 0
IsWordAddr a = (a % 8 ≡ 0) × (a < 2 ^ 64)

aligned-AddsAtMost : AddsAtMost 0 IsWordAddr
aligned-AddsAtMost start stop a p lt fits lo hi =
    omega (arith, align_up-word start p.1 p.0, align_down-word (sub64 stop start))

-- If the regions begin on words and the occupied blocks, in address order, end on words, whatever their
-- sizes are, and none wraps round the end of the address space, then every byte that the blocks in the
-- output cover is one that they covered before, or is in some region and in no occupied block.
pub emit_free_aligned_mem_blocks_sound :
    (regions occupied out : List MemBlock) (a : ℕ)
    → All BeginsOnWord regions
    → All EndsOnWord occupied
    → IsSortedByAddr occupied
    → Covers (emit_free_aligned_mem_blocks regions occupied out) a
    → Covers out a ⊎ (Covers regions a × (¬ Covers occupied a))
emit_free_aligned_mem_blocks_sound regions occupied out a rs good sorted h =
    elim (emit-AtMost 0 IsWordAddr aligned-AddsAtMost regions occupied out a
      (All-map _ _ (λ b r. omega arith) regions rs) (All-map _ _ (λ b o. omega arith) occupied good)
      sorted h) [
        | inl old ↦ inl old
        | inr new ↦ inr (
          Any-map _ _ (λ b c. omega arith) regions new.0,
          λ c. new.1 (Any-map _ _ (λ b c. omega arith) occupied c),
        )
      ]

-- The block ends at least a word before the end of the address space.
abbrev pub HasMargin : MemBlock → Type 0
HasMargin b = b.base_addr + b.size + 8 ≤ 2 ^ 64

any-AddsAtMost : AddsAtMost 7 (λ a. a + 8 ≤ 2 ^ 64)
any-AddsAtMost start stop a p lt fits lo hi =
    omega (arith, align_up_lem 3 start (omega arith) p, align_down-word (sub64 stop start))

any-AddsAtLeast : AddsAtLeast 7 (λ a. a + 8 ≤ 2 ^ 64)
any-AddsAtLeast start stop out a p q h =
    let up = align_up_lem 3 start (omega arith) p in
    let down = align_down-word (sub64 stop start) in
    emit_free-adds start stop out a (elim h [
      | inl old ↦ inl old
      | inr new ↦ inr (omega arith, omega (arith, up), omega (arith, up, down))
    ])

margin-IsBounded :
    (b : MemBlock) → HasMargin b → IsBounded 7 (λ a. a + 8 ≤ 2 ^ 64) any-AddsAtLeast b
margin-IsBounded b h = omega arith

-- With no alignment at all, regions and occupied blocks that end at least a word before the end of
-- the address space, the latter in address order: what is covered afterwards is right up to seven
-- bytes at the bounds of blocks. A byte that is newly covered lies in some region or in the seven
-- bytes after one, and in no occupied block behind its first seven bytes. And a byte is covered if it
-- was before, or if it lies in a region with seven bytes on either side and keeps as far from every
-- occupied block.
pub emit_free_aligned_mem_blocks_slack :
    (regions occupied out : List MemBlock) (a : ℕ)
    → All HasMargin regions
    → All HasMargin occupied
    → IsSortedByAddr occupied
    → (Covers (emit_free_aligned_mem_blocks regions occupied out) a
        → Covers out a ⊎ (Any (Reaches 7 a) regions × (¬ Any (ContainsBehind 7 a) occupied)))
      × (Covers out a ⊎ (Any (IsInside 7 a) regions × (¬ Any (IsNear 7 a) occupied))
          → Covers (emit_free_aligned_mem_blocks regions occupied out) a)
emit_free_aligned_mem_blocks_slack regions occupied out a rs good sorted = (
  emit-AtMost 7 (λ a. a + 8 ≤ 2 ^ 64) any-AddsAtMost regions occupied out a
      (All-map _ _ (λ b r. omega arith) regions rs) (All-map _ _ (λ b o. omega arith) occupied good)
      sorted,
  emit-AtLeast 7 (λ a. a + 8 ≤ 2 ^ 64) any-AddsAtLeast regions occupied out a
      (All-map _ _ margin-IsBounded regions rs) (All-map _ _ margin-IsBounded occupied good),
)
