-- ===== src/Kernel/Boot/Shown.antt =====
-- What stands on the screen when `KernelMain` (kernel/src/main.c) has come to its end.
use quakernel.Base.{ℕ, ◌≤◌, ◌<◌, ◌≡◌, arith, Option, some, List, All, if◌then◌else◌, u16, u32}
use quakernel.Base.Int.{pos}
use quakernel.Base.Exec.{halted}
use quakernel.CString.{codes}
use quakernel.Framebuffer.{LimineFramebuffer, from_limine}
use quakernel.Framebuffer.Picture.{shown, InFramebuffer, IsWordPixels, IsWithin}
use quakernel.Console.Grid.{text_pixels, columns_of, lines_of}
use quakernel.Console.Grid.Picture.{
  is_painted, stored-shown, stored-IsWithin, text_pixels-Inside, first_line-IsUpper,
}
use quakernel.Device.Dtb.{Fdt}
use quakernel.Kernel.{MemmapEntry, KernelState, kernel_main}
use quakernel.Kernel.Boot.{answering, booted, kernel_main-greets}

-- If the answers are there, libfdt accepts the device tree, all stores before the kernel were inside
-- the first framebuffer, and this has pixels of 32 bits, rows of whole words with room for them, four
-- times its size behind its address, at least 64 rows, of which more than 16 are left after their
-- number is cut to 16 bits, and a width that after being cut so still has room for the greeting in
-- one line, then the kernel ends in its endless wait. All stores are then inside the framebuffer. A
-- pixel of it has the greeting's colour, if it is the one at four times the coordinates of a pixel of
-- the greeting on the grid of cells, which behind the end of a row is one in a later row, and
-- otherwise the colour that it had before the kernel.
pub kernel_main-shown :
    (usable offset : ℕ) (entry : MemmapEntry) (entries : List MemmapEntry) (fb : LimineFramebuffer)
    (fbs : List (Option LimineFramebuffer)) (fdt : Fdt) (k : KernelState)
    → fdt.check_full (u32 fdt.totalsize) ≡ pos 0
    → 136 < u16 fb.width
    → 16 < u16 fb.height
    → 64 ≤ fb.height
    → IsWordPixels (from_limine fb)
    → All (IsWithin (from_limine fb)) k.screen.stores
    → (k' : KernelState) × (kernel_main (answering usable offset entry entries fb fbs fdt) k
        ≡ halted k')
      × All (IsWithin (from_limine fb)) k'.screen.stores
      × ((x y : ℕ)
          → InFramebuffer (from_limine fb) x y
          → shown (from_limine fb) x y k'.screen.stores ≡ (
              if is_painted (from_limine fb) x y (
                text_pixels
                  (columns_of (u16 fb.width))
                  (lines_of (u16 fb.height))
                  (0, 0)
                  (codes "Hello Quakernel !"))
              then some 0xff5555
              else shown (from_limine fb) x y k.screen.stores))
kernel_main-shown usable offset entry entries fb fbs fdt k good wide high rows w within =
    let fbo = from_limine fb in
    let text = codes "Hello Quakernel !" in
    let columns = columns_of (u16 fb.width) in
    let lines = lines_of (u16 fb.height) in
    let pixels = text_pixels columns lines (0, 0) text in
    let inside = text_pixels-Inside fbo (omega arith) high text 0 0 (omega arith) in
    let upper = first_line-IsUpper fbo columns lines 0 text (omega arith) (omega arith) rows in
    (
      booted usable offset entry entries fb fbs fdt k,
      (kernel_main-greets usable offset entry entries fb fbs fdt k good (omega arith) high).0,
      stored-IsWithin fbo w 0xff5555 pixels k.screen.stores inside upper within,
      λ x y i. stored-shown fbo w 0xff5555 x y pixels k.screen.stores i inside,
    )
