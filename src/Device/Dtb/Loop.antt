-- ===== src/Device/Dtb/Loop.antt =====
-- The walk over the nodes: it ends, and what it does at a node.
use quakernel.Base.{ℕ, zero, suc, ◌+◌, ◌≤◌, ◌<◌, ◌≡◌, ◌≢◌, refl, arith, false}
use quakernel.Base.Int.{ℤ, pos, negsuc}
use quakernel.Base.Exec.{returned}
use quakernel.Base.Ensures.{then-returned}
use quakernel.CString.{StringLib}
use quakernel.Device.Dtb.{Fdt, DtbState, visit_node, visit_from, parse_dtb}

-- `fdt_next_node` goes forward through the blob: the next node stands behind this one, inside the
-- blob, or the result is negative.
abbrev pub GoesForward : Fdt → Type 0
GoesForward fdt = (n m : ℕ) → fdt.next_node n ≡ pos m → (n < m) × (m < fdt.totalsize)

module _ (fdt : Fdt) (lib : StringLib) where
  -- The next round at any offset, if those that are not negative do not run out of fuel.
  stops :
      (fuel : ℕ) (z : ℤ) {s' : DtbState} (t : DtbState)
      → ((m : ℕ) → z ≡ pos m → visit_from fdt lib fuel (pos m) t ≢ returned false s')
      → visit_from fdt lib fuel z t ≢ returned false s'
  unfolding visit_from
  stops fuel (pos m) t keep e = keep m refl e
  stops zero (negsuc c) t keep e = cc
  stops (suc fuel) (negsuc c) t keep e = cc

  visit_from-ends :
      (fuel node : ℕ) (s s' : DtbState)
      → GoesForward fdt
      → fdt.totalsize ≤ node + fuel
      → node < fdt.totalsize
      → visit_from fdt lib fuel (pos node) s ≢ returned false s'
  unfolding visit_from
  visit_from-ends zero node s s' g h lt e = omega arith
  visit_from-ends (suc fuel) node s s' g h lt e =
      let (t, _, after) = then-returned _ false s' (visit_node fdt lib node) s e in
      stops fuel (fdt.next_node node) t
        (λ m next. visit_from-ends fuel m t s' g (omega (arith, g node m next)) (g node m next).1)
        after

  -- With as much fuel as the blob has bytes the walk does not run out of it, if the blob is not empty
  -- and `fdt_next_node` goes forward through it.
  pub parse_dtb-ends :
      (s s' : DtbState)
      → GoesForward fdt
      → 0 < fdt.totalsize
      → parse_dtb fdt lib fdt.totalsize s ≢ returned false s'
  unfolding parse_dtb
  parse_dtb-ends s s' g h = visit_from-ends fdt.totalsize 0 s s' g (omega arith) h
