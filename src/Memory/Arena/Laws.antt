-- ===== src/Memory/Arena/Laws.antt =====
-- What the arena hands out: disjoint ranges of its block, until it is full or reset.
pub mod Layout
pub mod Wrap
use quakernel.Base.{
  ℕ, ◌+◌, ◌-◌, ◌^◌, ◌≤◌, ◌<◌, ◌≡◌, refl, ap, arith, inl, inr, ◌⊎◌, List, [], ◌∷◌, Option, none,
  some, All, All-map,
}
use quakernel.Memory.Block.{MemBlock, Fits}
use quakernel.Memory.Arena.{LinearArena, create, alloc, reset}

-- The block lies in the address space and holds what is used.
pub record IsValid (arena : LinearArena) : Type 0 where
  pub fits : Fits arena.mem_block
  pub used_in : arena.used ≤ arena.mem_block.size

-- A request fits exactly if the sum `used + sizeInBytes`, which does not wrap, is at most the size:
-- then the result is the first unused address and the arena has used that much more. Otherwise the
-- result is null and nothing changes.
pub alloc_lem :
    (arena : LinearArena) (n : ℕ)
    → IsValid arena
    → arena.used + n < 2 ^ 64
    → ((arena.used + n ≤ arena.mem_block.size)
        × (alloc arena n ≡ (
          some (arena.mem_block.base_addr + arena.used),
          record arena { used = arena.used + n },
        )))
      ⊎ ((arena.mem_block.size < arena.used + n) × (alloc arena n ≡ (none, arena)))
unfolding alloc
alloc_lem arena n v h = ground arith

-- A client's calls.
pub data Op : Type 0 where
  allocate : ℕ → Op
  clear : Op

-- The arena, with the ranges that were handed out since it was last reset.
pub record Ledger : Type 0 where
  pub arena : LinearArena
  pub live : List MemBlock

unfoldable pub granted : ℕ → Option ℕ → List MemBlock → List MemBlock
granted n none live = live
granted n (some p) live = record { base_addr = p; size = n } ∷ live

unfoldable pub call : Ledger → Op → Ledger
call l (allocate n) =
    let (p, arena) = alloc l.arena n in record { arena = arena; live = granted n p l.live }
call l clear = record { arena = reset l.arena; live = [] }

unfoldable pub run : Ledger → List Op → Ledger
run l [] = l
run l (op ∷ ops) = run (call l op) ops

abbrev pub start : MemBlock → Ledger
start block = record { arena = create block; live = [] }

-- No byte belongs to both ranges.
abbrev pub Disjoint : MemBlock → MemBlock → Type 0
Disjoint b c = (b.base_addr + b.size ≤ c.base_addr) ⊎ (c.base_addr + c.size ≤ b.base_addr)

abbrev pub AllDisjoint : List MemBlock → Type 0
AllDisjoint [] = Unit
AllDisjoint (b ∷ bs) = All (Disjoint b) bs × AllDisjoint bs

abbrev pub Within : MemBlock → MemBlock → Type 0
Within block b =
    (block.base_addr ≤ b.base_addr) × (b.base_addr + b.size ≤ block.base_addr + block.size)

-- A request below half of the address space; with a block below the other half no sum wraps.
abbrev pub IsModest : Op → Type 0
IsModest (allocate n) = n ≤ 2 ^ 63
IsModest clear = Unit

-- The ranges are disjoint, and in the part of the block that is used.
record IsSound (block : MemBlock) (l : Ledger) : Type 0 where
  same : l.arena.mem_block ≡ block
  room : l.arena.used ≤ block.size
  inside :
      All
        (λ b.
          (block.base_addr ≤ b.base_addr) × (b.base_addr + b.size ≤ block.base_addr + l.arena.used))
        l.live
  apart : AllDisjoint l.live

call-cases :
    (l : Ledger) (n : ℕ)
    → IsValid l.arena
    → l.arena.used + n < 2 ^ 64
    → (call l (allocate n) ≡ l)
      ⊎ ((l.arena.used + n ≤ l.arena.mem_block.size)
          × (call l (allocate n) ≡ record {
            arena = record l.arena { used = l.arena.used + n };
            live =
                record { base_addr = l.arena.mem_block.base_addr + l.arena.used; size = n }
                ∷ l.live;
          }))
unfolding call granted
call-cases l n v h = elim (alloc_lem l.arena n v h) [
  | inl (room, e) ↦ inr (room, rw e)
  | inr (full, e) ↦ inl (rw e)
]

-- Ranges below an address are disjoint from one that starts there.
Disjoint-above :
    (lo hi n : ℕ) (live : List MemBlock)
    → All (λ b. (lo ≤ b.base_addr) × (b.base_addr + b.size ≤ hi)) live
    → All (Disjoint (record { base_addr = hi; size = n })) live
Disjoint-above lo hi n = All-map _ _ (λ b h. inr h.1)

module _ (block : MemBlock) (fits : Fits block) (small : block.size < 2 ^ 63) where
  -- The fields of the arena's block, as equations of numbers.
  same_base : {l : Ledger} → IsSound block l → l.arena.mem_block.base_addr ≡ block.base_addr
  same_base s = ap (λ (b : MemBlock). b.base_addr) s.same

  same_size : {l : Ledger} → IsSound block l → l.arena.mem_block.size ≡ block.size
  same_size s = ap (λ (b : MemBlock). b.size) s.same

  IsSound-grant :
      (l : Ledger) (n : ℕ)
      → IsSound block l
      → l.arena.used + n ≤ block.size
      → IsSound block (record {
        arena = record l.arena { used = l.arena.used + n };
        live = record { base_addr = l.arena.mem_block.base_addr + l.arena.used; size = n } ∷ l.live;
      })
  IsSound-grant l n s h = record {
    same = s.same;
    room = h;
    inside = (omega (arith, same_base s), All-map _ _ (λ b p. omega arith) l.live s.inside);
    apart = (
      Disjoint-above block.base_addr (l.arena.mem_block.base_addr + l.arena.used) n l.live
          (All-map _ _ (λ b p. omega (arith, same_base s)) l.live s.inside),
      s.apart,
    );
  }

  call-IsSound : (l : Ledger) (op : Op) → IsModest op → IsSound block l → IsSound block (call l op)
  call-IsSound l clear m s =
      unfold call reset in record { same = s.same; room = omega arith; inside = tt; apart = tt }
  call-IsSound l (allocate n) m s = elim (call-cases l n valid (omega arith)) [
    | inl e ↦ rw e s
    | inr (room, e) ↦ rw e (IsSound-grant l n s (omega (arith, same_size s)))
  ]
    where
      valid : IsValid l.arena
      valid = record {
        fits = omega (arith, same_base s, same_size s);
        used_in = omega (arith, same_size s);
      }

  run-IsSound :
      (l : Ledger) (ops : List Op) → All IsModest ops → IsSound block l → IsSound block (run l ops)
  unfolding run
  run-IsSound l [] m s = s
  run-IsSound l (op ∷ ops) m s = run-IsSound (call l op) ops m.1 (call-IsSound l op m.0 s)

  start-IsSound : IsSound block (start block)
  unfolding create
  start-IsSound = record { same = refl; room = omega arith; inside = tt; apart = tt }

  -- After any calls on a new arena, each request of at most half the address space, the ranges handed
  -- out since the last reset lie inside the arena's block, and no two of them share a byte.
  pub run_safe :
      (ops : List Op)
      → All IsModest ops
      → let l = run (start block) ops in All (Within block) l.live × AllDisjoint l.live
  run_safe ops m =
      let s = run-IsSound (start block) ops m start-IsSound in
      (All-map _ _ (λ b p. omega (arith, s.room)) _ s.inside, s.apart)
