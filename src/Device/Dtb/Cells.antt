-- ===== src/Device/Dtb/Cells.antt =====
-- Reading cells of properties that may be missing.
use quakernel.Base.{ℕ, ◌≡◌, ◌≢◌, ◌⊎◌, inl, inr, refl, Option, none, some, Option-cases, List}
use quakernel.Base.Exec.{Exec, returned, undefined, ◌>>=◌}
use quakernel.Device.Dtb.{Fdt, DtbState, word_at, cell}

-- A cell is read, or the code reads through a null pointer or behind the blob.
cell-cases :
    (fdt : Fdt) (p : Option (List ℕ)) (s : DtbState)
    → (cell fdt p 0 s ≡ undefined) ⊎ ((p ≢ none) × (w : ℕ) × (cell fdt p 0 s ≡ returned w s))
unfolding cell
cell-cases fdt none s = inl refl
cell-cases fdt (some bytes) s = elim (Option-cases (word_at bytes 0)) [
  | inl e ↦ inl (rw (◌>>=◌, e) refl)
  | inr (w, e) ↦ inr (λ n. cc, fdt.fdt32_to_cpu w, rw (◌>>=◌, e) refl)
]

-- If one of three properties is missing, code that first reads a cell of each of them is undefined.
pub three_cells :
    (fdt : Fdt) (a b c : Option (List ℕ)) (s : DtbState) (k : ℕ → ℕ → ℕ → Exec DtbState (Unit {0}))
    → (a ≡ none) ⊎ ((b ≡ none) ⊎ (c ≡ none))
    → (do x ← cell fdt a 0; y ← cell fdt b 0; z ← cell fdt c 0; k x y z) s ≡ undefined
three_cells fdt a b c s k missing = elim (cell-cases fdt a s) [
  | inl e ↦ rw (◌>>=◌, e) refl
  | inr (na, x, ea) ↦ elim (cell-cases fdt b s) [
    | inl e ↦ rw (◌>>=◌, ea, e) refl
    | inr (nb, y, eb) ↦ elim (cell-cases fdt c s) [
      | inl e ↦ rw (◌>>=◌, ea, eb, e) refl
      | inr (nc, z, ec) ↦
          absurd (elim missing [ inl m ↦ na m | inr m ↦ elim m [ inl m ↦ nb m | inr m ↦ nc m ] ])
    ]
  ]
]
