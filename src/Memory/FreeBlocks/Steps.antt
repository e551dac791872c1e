-- ===== src/Memory/FreeBlocks/Steps.antt =====
-- One round of the inner loop of `QKEmitFreeAlignedMemBlocks`, as equations for the rest of the loop.
use quakernel.Base.{ℕ, ◌≡◌, ◌+◌, ◌≤◌, ◌<◌, ◌⊎◌, arith, refl, true, false, ap, List, [], ◌∷◌}
use quakernel.Memory.Block.{MemBlock, end_addr, Fits}
use quakernel.Memory.FreeBlocks.{emit_free, is_irrelevant, visit_occupied, visit_all, emit_rest}

module _ (stop start : ℕ) (o : MemBlock) (os out : List MemBlock) where
  visit_occupied-skip :
      is_irrelevant stop start o ≡ true → visit_occupied stop o (start, out) ≡ (start, out)
  unfolding visit_occupied
  visit_occupied-skip e = rw e

  visit_occupied-take :
      is_irrelevant stop start o ≡ false
      → visit_occupied stop o (start, out) ≡ (end_addr o, emit_free start o.base_addr out)
  unfolding visit_occupied
  visit_occupied-take e = rw e

  -- `continue`
  pub visit_all-skip :
      is_irrelevant stop start o ≡ true
      → visit_all stop (o ∷ os) (start, out) ≡ visit_all stop os (start, out)
  unfolding visit_all
  visit_all-skip e = ap (visit_all stop os) (visit_occupied-skip e)

  pub visit_all-take :
      is_irrelevant stop start o ≡ false
      → visit_all stop (o ∷ os) (start, out)
        ≡ visit_all stop os (end_addr o, emit_free start o.base_addr out)
  unfolding visit_all
  visit_all-take e = ap (visit_all stop os) (visit_occupied-take e)

-- The inner loop followed by the emission of the rest.
abbrev pub finish : ℕ → List MemBlock → ℕ × List MemBlock → List MemBlock
finish stop occupied state = emit_rest stop (visit_all stop occupied state)

pub finish-nil :
    (stop start : ℕ) (out : List MemBlock) → finish stop [] (start, out) ≡ emit_free start stop out
unfolding visit_all emit_rest
finish-nil stop start out = refl

pub finish-skip :
    (stop start : ℕ) (o : MemBlock) (os out : List MemBlock)
    → is_irrelevant stop start o ≡ true
    → finish stop (o ∷ os) (start, out) ≡ finish stop os (start, out)
finish-skip stop start o os out e = ap (emit_rest stop) (visit_all-skip stop start o os out e)

pub finish-take :
    (stop start : ℕ) (o : MemBlock) (os out : List MemBlock)
    → is_irrelevant stop start o ≡ false
    → finish stop (o ∷ os) (start, out)
      ≡ finish stop os (end_addr o, emit_free start o.base_addr out)
finish-take stop start o os out e = ap (emit_rest stop) (visit_all-take stop start o os out e)

pub skip-facts :
    (stop start : ℕ) (o : MemBlock)
    → Fits o
    → is_irrelevant stop start o ≡ true
    → (o.base_addr + o.size < start) ⊎ (stop < o.base_addr)
unfolding is_irrelevant
skip-facts stop start o f e = grind arith

pub take-facts :
    (stop start : ℕ) (o : MemBlock)
    → Fits o
    → is_irrelevant stop start o ≡ false
    → (start ≤ o.base_addr + o.size) × (o.base_addr ≤ stop)
unfolding is_irrelevant
take-facts stop start o f e = ground arith
