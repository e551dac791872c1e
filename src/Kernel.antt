-- ===== src/Kernel.antt =====
-- `KernelMain` of kernel/src/main.c, over the boot loader's answers.
pub mod Boot
use quakernel.Base.{
  ℕ, suc, ◌*◌, ◌^◌, Bool, true, false, ◌&&◌, not, Option, none, some, List, [], ◌∷◌, leb, ◌==◌,
  if◌then◌else◌, add64,
}
use quakernel.Base.Exec.{
  Exec, Outcome, returned, halted, undefined, from_option, pure, modify, when, ◌>>=◌, ◌>>◌,
}
use quakernel.CString.{codes}
use quakernel.Memory.Block.{MemBlock}
use quakernel.Memory.Size.{kib}
use quakernel.Memory.Arena.{LinearArena, create}
use quakernel.Framebuffer.{Framebuffer, LimineFramebuffer, init_framebuffer}
use quakernel.Console.{Screen, default_fb_console, q_print}
use quakernel.Device.Dtb.{Fdt, validate_dtb}

-- What the kernel reads of a `limine_memmap_entry`.
pub record MemmapEntry : Type 0 where
  pub base : ℕ
  pub length : ℕ
  pub kind : ℕ

-- The answers to the kernel's requests; `none` is a null response. `memmap_usable` is the number of
-- `LIMINE_MEMMAP_USABLE`, and `base_revision_supported` the value of `LIMINE_BASE_REVISION_SUPPORTED`,
-- both of limine.h. The pointer in the answer with the device tree may be null too.
pub record BootLoader : Type 0 where
  pub memmap_usable : ℕ
  pub base_revision_supported : Bool
  pub hhdm : Option ℕ
  pub memmap : Option (List MemmapEntry)
  pub framebuffer : Option (List (Option LimineFramebuffer))
  pub dtb : Option (Option Fdt)

-- The kernel's static variables, and the stores made to the framebuffer.
pub record KernelState : Type 0 where
  pub pre_init_arena : LinearArena
  pub screen : Screen

-- `QK_CHECK( expr )`
pub qk_check : Bool → Exec KernelState (Unit {0})
qk_check expr = when expr halted

abbrev pub is_null {ℓ} : {A : Type ℓ} → Option A → Bool
is_null none = true
is_null (some a) = false

-- `!response || count < 1`
abbrev pub is_missing {ℓ} : {A : Type ℓ} → Option (List A) → Bool
is_missing none = true
is_missing (some []) = true
is_missing (some (a ∷ rest)) = false

-- `!response || response->dtb_ptr == NULL`
abbrev pub is_null_dtb {ℓ} : {A : Type ℓ} → Option (Option A) → Bool
is_null_dtb none = true
is_null_dtb (some none) = true
is_null_dtb (some (some fdt)) = false

-- `type == LIMINE_MEMMAP_USABLE && length >= 8 * KiB`
abbrev pub is_usable : ℕ → MemmapEntry → Bool
is_usable memmap_usable entry = entry.kind == memmap_usable && leb (8 * kib) entry.length

-- The first loop over the memory map: it ends at the first usable entry. The second one has no effect.
unfoldable pub choose_arena :
    (memmap_usable offset : ℕ) → List MemmapEntry → LinearArena → LinearArena
choose_arena memmap_usable offset [] arena = arena
choose_arena memmap_usable offset (entry ∷ entries) arena =
    if is_usable memmap_usable entry
    then create (record { base_addr = add64 entry.base offset; size = entry.length })
    else choose_arena memmap_usable offset entries arena

-- Code on the screen, in the kernel's state.
pub on_screen : Exec Screen (Unit {0}) → Exec KernelState (Unit {0})
on_screen m k = elim (m k.screen) [
  | returned a screen ↦ returned a (record k { screen = screen })
  | halted screen ↦ halted (record k { screen = screen })
  | undefined ↦ undefined
]

-- `KernelMain`
pub kernel_main : BootLoader → Exec KernelState (Unit {0})
kernel_main boot = do
  qk_check (not boot.base_revision_supported)
  qk_check (is_null boot.hhdm)
  qk_check (is_missing boot.memmap)
  offset ← from_option boot.hhdm
  entries ← from_option boot.memmap
  modify (λ k. record k {
    pre_init_arena = choose_arena boot.memmap_usable offset entries k.pre_init_arena;
  })
  qk_check (is_missing boot.framebuffer)
  qk_check (is_null_dtb boot.dtb)
  fbo ← init_framebuffer boot.framebuffer
  modify (λ k. record k { screen = record k.screen { fbo = fbo } })
  dtb_ptr ← from_option boot.dtb
  fdt ← from_option dtb_ptr
  validate_dtb fdt
  modify (λ k. record k { screen = record k.screen { console = default_fb_console k.screen.fbo } })
  on_screen (q_print (codes "Hello Quakernel !") 0xff5555)
  halted
