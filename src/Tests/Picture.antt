-- ===== src/Tests/Picture.antt =====
-- Pixels read back, and the picture of a text.
use quakernel.Base.{inr, ℕ, ◌≡◌, refl, All, arith, some, [], if◌then◌else◌}
use quakernel.Base.Exec.{returned}
use quakernel.CString.{codes}
use quakernel.Framebuffer.{framebuffer_put_pixel}
use quakernel.Framebuffer.Picture.{
  shown, InFramebuffer, IsWordPixels, IsWithin, framebuffer_put_pixel-shown,
}
use quakernel.Console.{Screen, q_print}
use quakernel.Console.Grid.{text_pixels, screen_at}
use quakernel.Console.Grid.Picture.{is_painted, first_line-IsUpper, q_print-shown}
use quakernel.Tests.Screen.{vga}

vga-IsWordPixels : IsWordPixels vga
vga-IsWordPixels = record { placed = omega arith; deep = refl; words = refl }

-- The pixel (12, 16) is at four times the coordinates (3, 4).
framebuffer_put_pixel-shown_example :
    All (IsWithin vga) (framebuffer_put_pixel vga 3 4 0xff00 [])
    × (shown vga 12 16 (framebuffer_put_pixel vga 3 4 0xff00 []) ≡ some 0xff00)
framebuffer_put_pixel-shown_example =
    framebuffer_put_pixel-shown vga vga-IsWordPixels 3 4 0xff00 12 16 [] (omega arith)
      (inr (omega arith)) tt

q_print-shown_example :
    (s' : Screen) × (q_print (codes "To") 0xffffff (screen_at vga (0, 0) []) ≡ returned tt s')
    × All (IsWithin vga) s'.stores
    × ((x y : ℕ)
        → InFramebuffer vga x y
        → shown vga x y s'.stores ≡ (
            if is_painted vga x y (text_pixels 79 29 (0, 0) (codes "To"))
            then some 0xffffff
            else shown vga x y []))
q_print-shown_example =
    q_print-shown vga (omega arith) (omega arith) (codes "To") 0xffffff 0 0 [] vga-IsWordPixels
      (omega arith) (omega arith)
      (first_line-IsUpper vga 79 29 0 (codes "To") (omega arith) (omega arith) (omega arith)) tt
