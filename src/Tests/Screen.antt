-- ===== src/Tests/Screen.antt =====
-- The console and the framebuffer at concrete inputs.
use quakernel.Base.{◌^◌, ◌+◌, ◌*◌, ◌≤◌, ◌≡◌, refl, arith, if◌then◌else◌, ltb, [], ◌∷◌}
use quakernel.Base.Exec.{returned, undefined}
use quakernel.CString.{codes}
use quakernel.Font.{font_data_8x16}
use quakernel.Framebuffer.{
  pack_pixel, Framebuffer, LimineFramebuffer, from_limine, pixel_store, framebuffer_put_pixel,
  framebuffer_get_size_in_bytes,
}
use quakernel.Framebuffer.Pixel.{pack_pixel-fields}
use quakernel.Framebuffer.Address.{framebuffer_put_pixel-outside}
use quakernel.Console.{Screen, default_fb_console, draw_row, q_print}
use quakernel.Console.Grid.{stored, text_pixels, end_of, place, screen_at}
use quakernel.Console.Grid.Painted.{q_print-text_pixels}
use quakernel.Console.Glyph.{paint_columns, draw_row-all_or_nothing}

abbrev pub limine_vga : LimineFramebuffer
limine_vga = record {
  address = 0x8000_0000;
  width = 640;
  height = 480;
  pitch = 2560;
  bpp = 32;
  memory_model = 1;
  red_mask_size = 8;
  red_mask_shift = 16;
  green_mask_size = 8;
  green_mask_shift = 8;
  blue_mask_size = 8;
  blue_mask_shift = 0;
}

abbrev pub vga : Framebuffer
vga = from_limine limine_vga

abbrev pub vga_screen : Screen
vga_screen = record { fbo = vga; console = default_fb_console vga; stores = [] }

-- The third row of an H is 11000110, and all eight columns are painted.
draw_row-all_or_nothing_example :
    draw_row 72 0xff5555 2 vga_screen
    ≡ returned tt (if ltb 0xc6 128 then vga_screen else paint_columns 8 0 2 0xff5555 vga_screen)
unfolding default_fb_console font_data_8x16
draw_row-all_or_nothing_example =
    draw_row-all_or_nothing 72 2 0xc6 0xff5555 vga_screen refl refl (omega arith)

framebuffer_put_pixel-outside_example :
    (framebuffer_put_pixel vga 0 120 0xff5555 [] ≡ pixel_store vga 0 120 0xff5555 ∷ [])
    × (0x8000_0000 + framebuffer_get_size_in_bytes vga ≤ (pixel_store vga 0 120 0xff5555).at)
framebuffer_put_pixel-outside_example =
    framebuffer_put_pixel-outside vga 0 120 0xff5555 [] (omega arith) (omega arith) (omega arith)
      (omega arith)

-- Five, six and five bits.
pack_pixel-fields_example :
    pack_pixel 0xff 0x55 0x54 11 5 0 5 6 5 tt
    ≡ returned (0x1f * 2 ^ 11 + 0x15 * 2 ^ 5 + 0x0a * 2 ^ 0) tt
pack_pixel-fields_example =
    pack_pixel-fields {S = Unit {0}} 0xff 0x55 0x54 11 5 0 5 6 5 tt (omega arith) (omega arith)
      (omega arith) (omega arith) (omega arith) (omega arith)

-- Four channels of eight bits, red at the top.
top_red : pack_pixel 0xff 0 0 24 16 8 8 8 8 tt ≡ undefined
top_red =
    pack_pixel-fields {S = Unit {0}} 0xff 0 0 24 16 8 8 8 8 tt (omega arith) (omega arith)
      (omega arith) (omega arith) (omega arith) (omega arith)

-- A screen of two columns and two lines.
abbrev pub tiny : Framebuffer
tiny = record (from_limine limine_vga) { width = 17; height = 33 }

-- A second text, from the second cell of the first line on.
q_print-text_pixels_example :
    q_print (codes "o\nYou") 0xffffff (screen_at tiny (1, 0) [])
    ≡ returned tt
        (screen_at tiny (2, 0) (stored tiny 0xffffff (text_pixels 2 2 (1, 0) (codes "o\nYou")) []))
unfolding end_of place
q_print-text_pixels_example =
    q_print-text_pixels tiny (codes "o\nYou") 0xffffff 1 0 [] (omega arith) (omega arith)
      (omega arith) (omega arith)
