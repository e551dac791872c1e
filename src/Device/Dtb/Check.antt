-- ===== src/Device/Dtb/Check.antt =====
-- The checks of the blob and of a node's status.
use quakernel.Base.{
  ℕ, ◌≡◌, ◌≢◌, refl, ◌↔◌, ◌⊎◌, arith, true, false, some, List, ◌∷◌, ◌++◌, Bool, ◌||◌, inl, inr, u32,
}
use quakernel.Base.Int.{pos}
use quakernel.Base.Exec.{returned, halted}
use quakernel.CString.{StringLib, IsText, codes, is_same_iff}
use quakernel.Device.Dtb.{Fdt, validate_dtb, check_ok_fdt_node_status}

module _ {S : Type 0} (fdt : Fdt) (s : S) where
  pub validate_dtb-accepts :
      fdt.check_full (u32 fdt.totalsize) ≡ pos 0 → validate_dtb fdt s ≡ returned tt s
  unfolding validate_dtb
  validate_dtb-accepts e = rw (e, validate_dtb) refl

  pub validate_dtb-stops :
      fdt.check_full (u32 fdt.totalsize) ≢ pos 0 → validate_dtb fdt s ≡ halted s
  unfolding validate_dtb
  validate_dtb-stops h = ground arith

-- A node whose status is a text that ends in a 0 counts as enabled exactly if the text is "okay" or
-- "ok"; what stands behind the 0 does not matter.
pub check_ok_fdt_node_status_iff :
    (fdt : Fdt) (lib : StringLib) (node : ℕ) (status after : List ℕ)
    → IsText status
    → fdt.getprop node (codes "status") ≡ some (status ++ 0 ∷ after)
    → (check_ok_fdt_node_status fdt lib node ≡ true)
      ↔ ((status ≡ codes "okay") ⊎ (status ≡ codes "ok"))
unfolding check_ok_fdt_node_status
check_ok_fdt_node_status_iff fdt lib node status after text e =
    let okay = is_same_iff lib status (codes "okay") after text (omega arith) in
    let ok = is_same_iff lib status (codes "ok") after text (omega arith) in
    rw (e, check_ok_fdt_node_status) (either okay ok)
  where
    either :
        {a b : Bool} {P Q : Type 0} → (a ≡ true) ↔ P → (b ≡ true) ↔ Q → ((a || b) ≡ true) ↔ (P ⊎ Q)
    either {a = true} p q = (λ e. inl (p.0 refl), λ h. refl)
    either {a = false} p q =
        (λ e. inr (q.0 e), λ h. elim h [ inl x ↦ (let f = p.1 x in cc) | inr y ↦ q.1 y ])
