-- ===== src/Kernel/Boot.antt =====
-- How the boot ends.
pub mod Silent
pub mod Early
pub mod Shown
use quakernel.Base.{
  ℕ, ◌<◌, ◌≡◌, ◌≢◌, refl, ap, ◌∙◌, arith, Bool, true, false, ◌||◌, not, Option, none, some, List,
  [], ◌∷◌, ◌++◌, All, u16, u32, add64,
}
use quakernel.Base.Int.{pos}
use quakernel.Base.Exec.{Exec, halted, modify, ◌>>=◌, ◌>>◌}
use quakernel.CString.{codes}
use quakernel.Memory.Arena.{LinearArena, create}
use quakernel.Framebuffer.{LimineFramebuffer, init_framebuffer, from_limine}
use quakernel.Console.{Screen, default_fb_console, q_print}
use quakernel.Console.Grid.{text_pixels, end_of, stored, columns_of, lines_of, screen_at}
use quakernel.Console.Grid.Painted.{q_print-text_pixels}
use quakernel.Console.Safety.{HasDrawn, q_print_safe}
use quakernel.Device.Dtb.{Fdt, validate_dtb}
use quakernel.Device.Dtb.Check.{validate_dtb-accepts, validate_dtb-stops}
use quakernel.Kernel.{
  MemmapEntry, BootLoader, KernelState, qk_check, is_null, is_missing, is_null_dtb, is_usable,
  choose_arena, on_screen, kernel_main,
}

abbrev pub IsSkipped : ℕ → MemmapEntry → Type 0
IsSkipped memmap_usable entry = is_usable memmap_usable entry ≡ false

-- The early arena lies in the first entry of the memory map that is usable and has at least 8 KiB, at
-- its address in the higher half, and nothing of it is used.
pub choose_arena-first :
    (memmap_usable offset : ℕ) (skipped rest : List MemmapEntry) (entry : MemmapEntry)
    (arena : LinearArena)
    → All (IsSkipped memmap_usable) skipped
    → is_usable memmap_usable entry ≡ true
    → choose_arena memmap_usable offset (skipped ++ (entry ∷ rest)) arena
      ≡ create (record { base_addr = add64 entry.base offset; size = entry.length })
unfolding choose_arena
choose_arena-first usable offset [] rest entry arena h e = rw e refl
choose_arena-first usable offset (x ∷ skipped) rest entry arena h e =
    rw h.0 (choose_arena-first usable offset skipped rest entry arena h.1 e)

-- What every boot must answer.
abbrev pub lacks_answer : BootLoader → Bool
lacks_answer boot =
    not boot.base_revision_supported
    || is_null boot.hhdm
    || is_missing boot.memmap
    || is_missing boot.framebuffer
    || is_null_dtb boot.dtb

stops_at :
    (usable : ℕ) (supported : Bool) (hhdm : Option ℕ) (memmap : Option (List MemmapEntry))
    (framebuffer : Option (List (Option LimineFramebuffer))) (dtb : Option (Option Fdt))
    (k : KernelState)
    → let boot : BootLoader = record {
      memmap_usable = usable;
      base_revision_supported = supported;
      hhdm = hhdm;
      memmap = memmap;
      framebuffer = framebuffer;
      dtb = dtb;
    } in
      lacks_answer boot ≡ true
      → (k' : KernelState) × (kernel_main boot k ≡ halted k') × (k'.screen ≡ k.screen)
unfolding kernel_main qk_check
stops_at usable false h m f d k e = (k, refl, refl)
stops_at usable true none m f d k e = (k, refl, refl)
stops_at usable true (some o) none f d k e = (k, refl, refl)
stops_at usable true (some o) (some []) f d k e = (k, refl, refl)
stops_at usable true (some o) (some (x ∷ xs)) none d k e =
    (record k { pre_init_arena = choose_arena usable o (x ∷ xs) k.pre_init_arena }, refl, refl)
stops_at usable true (some o) (some (x ∷ xs)) (some []) d k e =
    (record k { pre_init_arena = choose_arena usable o (x ∷ xs) k.pre_init_arena }, refl, refl)
stops_at usable true (some o) (some (x ∷ xs)) (some (y ∷ ys)) none k e =
    (record k { pre_init_arena = choose_arena usable o (x ∷ xs) k.pre_init_arena }, refl, refl)
stops_at usable true (some o) (some (x ∷ xs)) (some (y ∷ ys)) (some none) k e =
    (record k { pre_init_arena = choose_arena usable o (x ∷ xs) k.pre_init_arena }, refl, refl)
stops_at usable true (some o) (some (x ∷ xs)) (some (y ∷ ys)) (some (some fdt)) k e = cc

-- If the protocol's revision is not supported, or an answer or what it must hold is missing, the kernel
-- stops before it has changed the screen.
pub kernel_main-stops :
    (boot : BootLoader) (k : KernelState)
    → lacks_answer boot ≡ true
    → (k' : KernelState) × (kernel_main boot k ≡ halted k') × (k'.screen ≡ k.screen)
kernel_main-stops boot k h =
    stops_at boot.memmap_usable boot.base_revision_supported boot.hhdm boot.memmap boot.framebuffer
      boot.dtb k h

-- A boot loader that answers everything.
abbrev pub answering :
    (memmap_usable offset : ℕ) (entry : MemmapEntry) (entries : List MemmapEntry)
    (fb : LimineFramebuffer) (fbs : List (Option LimineFramebuffer)) (fdt : Fdt)
    → BootLoader
answering memmap_usable offset entry entries fb fbs fdt = record {
  memmap_usable = memmap_usable;
  base_revision_supported = true;
  hhdm = some offset;
  memmap = some (entry ∷ entries);
  framebuffer = some (some fb ∷ fbs);
  dtb = some (some fdt);
}

module _ (usable offset : ℕ) (entry : MemmapEntry) (entries : List MemmapEntry)
    (fb : LimineFramebuffer) (fbs : List (Option LimineFramebuffer)) (fdt : Fdt)
    (k : KernelState) where
  -- The state in which the device tree is checked.
  abbrev pub prepared : KernelState
  prepared = record {
    pre_init_arena = choose_arena usable offset (entry ∷ entries) k.pre_init_arena;
    screen = record k.screen { fbo = from_limine fb };
  }

  pub greet : Exec KernelState (Unit {0})
  greet = do
    modify
        (λ k. record k { screen = record k.screen { console = default_fb_console k.screen.fbo } })
    on_screen (q_print (codes "Hello Quakernel !") 0xff5555)
    halted

  pub boots_to :
      kernel_main (answering usable offset entry entries fb fbs fdt) k
      ≡ (validate_dtb fdt >> greet) prepared
  unfolding kernel_main qk_check init_framebuffer greet
  boots_to = refl

  -- A device tree that libfdt finds fault with stops the kernel before it prints.
  pub boots_to-bad :
      fdt.check_full (u32 fdt.totalsize) ≢ pos 0
      → kernel_main (answering usable offset entry entries fb fbs fdt) k ≡ halted prepared
  boots_to-bad bad = boots_to ∙ rw (validate_dtb-stops fdt prepared bad, ◌>>=◌) refl

  -- The state after the greeting.
  abbrev pub booted : KernelState
  booted = record {
    pre_init_arena = choose_arena usable offset (entry ∷ entries) k.pre_init_arena;
    screen =
        let columns = columns_of (u16 fb.width) in
        let lines = lines_of (u16 fb.height) in
        let text = codes "Hello Quakernel !" in
        screen_at (from_limine fb) (end_of columns lines (0, 0) text) (
          stored (from_limine fb) 0xff5555 (text_pixels columns lines (0, 0) text) k.screen.stores);
  }

  -- If the answers are there, libfdt accepts the device tree, and the first framebuffer is larger
  -- than a character after its sizes are cut to 16 bits, the kernel ends in its endless wait: the
  -- early arena is chosen from the memory map, the screen is that of the first framebuffer with the
  -- cursor behind the greeting, what was stored are exactly the pixels of the greeting on the grid of
  -- cells from its first cell on, in its colour, and the coordinates of each lie in the framebuffer.
  pub kernel_main-greets :
      fdt.check_full (u32 fdt.totalsize) ≡ pos 0
      → 8 < u16 fb.width
      → 16 < u16 fb.height
      → (kernel_main (answering usable offset entry entries fb fbs fdt) k ≡ halted booted)
        × HasDrawn (from_limine fb) k.screen.stores 0xff5555 booted.screen
  unfolding greet on_screen default_fb_console
  kernel_main-greets good wide high =
      let before = k.screen.stores in
      let greeting = codes "Hello Quakernel !" in
      let (screen, e, drawn, _) =
        q_print_safe (from_limine fb) greeting 0xff5555 before wide high (omega arith) in
      let painted =
        q_print-text_pixels (from_limine fb) greeting 0xff5555 0 0 before wide high (omega arith)
          (omega arith) in
      let same : screen ≡ booted.screen = cc in
      (
        boots_to ∙ rw (validate_dtb-accepts fdt prepared good, ◌>>=◌, painted) refl,
        rw same at drawn,
      )
