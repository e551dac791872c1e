-- ===== src/Kernel/Boot/Early.antt =====
-- The early arena that `KernelMain` (kernel/src/main.c) chooses from the memory map, and what can be
-- had of it through kernel/src/memory/linear_arena.c.
use quakernel.Base.{
  ℕ, ◌+◌, ◌*◌, ◌^◌, ◌≤◌, ◌<◌, ◌≡◌, refl, ◌∙◌, arith, true, List, [], ◌∷◌, ◌++◌, All, add64, leb,
}
use quakernel.InsertionSort.Elements.{rev_onto}
use quakernel.Memory.Block.{MemBlock}
use quakernel.Memory.Size.{kib}
use quakernel.Memory.Arena.{LinearArena}
use quakernel.Memory.Arena.Laws.{Op, allocate, run, IsModest}
use quakernel.Memory.Arena.Laws.Layout.{total, granting, granted_sizes, layout, run-granted_sizes}
use quakernel.Kernel.{MemmapEntry, is_usable, choose_arena}
use quakernel.Kernel.Boot.{IsSkipped, choose_arena-first}

-- Requests of these sizes, one after the other.
abbrev pub requests : List ℕ → List Op
requests [] = []
requests (n ∷ sizes) = allocate n ∷ requests sizes

granted_sizes-requests :
    (size : ℕ) (before sizes : List ℕ)
    → total before + total sizes ≤ size
    → granted_sizes size before (requests sizes) ≡ rev_onto sizes before
unfolding granted_sizes granting total
granted_sizes-requests size before [] h = refl
granted_sizes-requests size before (n ∷ sizes) h =
    let room : leb (total before + n) size ≡ true = ground arith in
    rw (room, granted_sizes) (granted_sizes-requests size (n ∷ before) sizes (omega arith))

requests-IsModest : (sizes : List ℕ) → total sizes ≤ 2 ^ 63 → All IsModest (requests sizes)
unfolding total
requests-IsModest [] h = tt
requests-IsModest (n ∷ sizes) h = (omega arith, requests-IsModest sizes (omega arith))

usable-length :
    (memmap_usable : ℕ) (entry : MemmapEntry)
    → is_usable memmap_usable entry ≡ true
    → 8 * kib ≤ entry.length
usable-length memmap_usable entry h = ground arith

-- If the memory map has a usable entry of at least 8 KiB, and the first such one is smaller than half
-- of the address space and lies in it at its address in the higher half, then the early arena serves
-- any requests of together at most 8 KiB, none of them refused: they are laid out without a gap from
-- that address on.
pub run-choose_arena :
    (memmap_usable offset : ℕ) (skipped rest : List MemmapEntry) (entry : MemmapEntry)
    (arena : LinearArena) (sizes : List ℕ)
    → All (IsSkipped memmap_usable) skipped
    → is_usable memmap_usable entry ≡ true
    → entry.base + offset + entry.length < 2 ^ 64
    → entry.length < 2 ^ 63
    → total sizes ≤ 8 * kib
    → run
        (record {
          arena = choose_arena memmap_usable offset (skipped ++ (entry ∷ rest)) arena;
          live = [];
        })
        (requests sizes)
      ≡ record {
        arena = record {
          mem_block = record { base_addr = entry.base + offset; size = entry.length };
          used = total (rev_onto sizes []);
        };
        live = layout (entry.base + offset) (rev_onto sizes []);
      }
run-choose_arena memmap_usable offset skipped rest entry arena sizes skip usable fits small h =
    let block : MemBlock = record { base_addr = entry.base + offset; size = entry.length } in
    let long = usable-length memmap_usable entry usable in
    let mapped : add64 entry.base offset ≡ entry.base + offset = omega arith in
    let grants = granted_sizes-requests entry.length [] sizes (unfold total in omega arith) in
    rw (choose_arena-first memmap_usable offset skipped rest entry arena skip usable, mapped)
      (run-granted_sizes block fits small (requests sizes) (requests-IsModest sizes (omega arith))
        ∙ rw grants refl)
