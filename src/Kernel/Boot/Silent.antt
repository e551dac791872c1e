-- ===== src/Kernel/Boot/Silent.antt =====
-- What `KernelMain` (kernel/src/main.c) must have checked before anything stands on the screen.
use quakernel.Base.{
  ℕ, zero, suc, ◌≡◌, ◌≢◌, ◌⊎◌, refl, ap, ◌∙◌, inl, inr, Bool, true, false, Bool-cases, Option, none,
  some, List, [], ◌∷◌, u32,
}
use quakernel.Base.Int.{ℤ, pos, negsuc}
use quakernel.Base.Exec.{Outcome, halted}
use quakernel.Framebuffer.{LimineFramebuffer, init_framebuffer}
use quakernel.Device.Dtb.{Fdt}
use quakernel.Kernel.{MemmapEntry, BootLoader, KernelState, qk_check, kernel_main}
use quakernel.Kernel.Boot.{lacks_answer, boots_to-bad, kernel_main-stops}

-- Every answer is there, the device tree among them, and libfdt accepts it.
abbrev pub HasPassed : BootLoader → Type 0
HasPassed boot =
    (lacks_answer boot ≡ false)
    × (fdt : Fdt) × (boot.dtb ≡ some (some fdt))
    × (fdt.check_full (u32 fdt.totalsize) ≡ pos 0)

zero-cases : (z : ℤ) → (z ≡ pos 0) ⊎ (z ≢ pos 0)
zero-cases (pos zero) = inl refl
zero-cases (pos (suc n)) = inr (λ e. cc)
zero-cases (negsuc n) = inr (λ e. cc)

-- Two ends of one run are the same.
same_end :
    {a b : KernelState} {m : Outcome KernelState (Unit {0})} → m ≡ halted a → m ≡ halted b → a ≡ b
same_end {a = a} {b = b} e f = cc

answered :
    (usable : ℕ) (supported : Bool) (hhdm : Option ℕ) (memmap : Option (List MemmapEntry))
    (framebuffer : Option (List (Option LimineFramebuffer))) (dtb : Option (Option Fdt))
    (k k' : KernelState)
    → let boot : BootLoader = record {
      memmap_usable = usable;
      base_revision_supported = supported;
      hhdm = hhdm;
      memmap = memmap;
      framebuffer = framebuffer;
      dtb = dtb;
    } in
      lacks_answer boot ≡ false
      → kernel_main boot k ≡ halted k'
      → (k'.screen.stores ≡ k.screen.stores) ⊎ HasPassed boot
unfolding kernel_main qk_check init_framebuffer
answered u true (some o) (some (x ∷ xs)) (some (some fb ∷ fbs)) (some (some fdt)) k k' there e =
    elim (zero-cases (fdt.check_full (u32 fdt.totalsize))) [
      | inl good ↦ inr (there, fdt, refl, good)
      | inr bad ↦
          let ends = same_end e (boots_to-bad u o x xs fb fbs fdt k bad) in
          inl (ap (λ (s : KernelState). s.screen.stores) ends)
    ]
answered u true (some o) (some (x ∷ xs)) (some (none ∷ fbs)) (some (some fdt)) k k' there e = cc
answered u true (some o) (some (x ∷ xs)) (some (fb ∷ fbs)) (some none) k k' there e = cc
answered u true (some o) (some (x ∷ xs)) (some (fb ∷ fbs)) none k k' there e = cc
answered u true (some o) (some (x ∷ xs)) (some []) d k k' there e = cc
answered u true (some o) (some (x ∷ xs)) none d k k' there e = cc
answered u true (some o) (some []) f d k k' there e = cc
answered u true (some o) none f d k k' there e = cc
answered u true none m f d k k' there e = cc
answered u false h m f d k k' there e = cc

-- Whatever the boot loader answers, and wherever the kernel stops, also at the end: either no pixel
-- was stored, or the protocol's revision is supported, every answer and what it must hold is there,
-- and libfdt accepts the device tree.
pub kernel_main-HasPassed :
    (boot : BootLoader) (k k' : KernelState)
    → kernel_main boot k ≡ halted k'
    → (k'.screen.stores ≡ k.screen.stores) ⊎ HasPassed boot
kernel_main-HasPassed boot k k' e = elim (Bool-cases (lacks_answer boot)) [
  | inl lacks ↦
      let (stopped, ends, same) = kernel_main-stops boot k lacks in
      inl (ap (λ (s : KernelState). s.screen.stores) (same_end e ends) ∙ ap (λ s. s.stores) same)
  | inr there ↦
      answered boot.memmap_usable boot.base_revision_supported boot.hhdm boot.memmap
        boot.framebuffer boot.dtb k k' there e
]
