-- ===== src/Framebuffer/Address.antt =====
-- Where the store of a pixel lands.
use quakernel.Base.{mul_mono, ℕ, ◌+◌, ◌*◌, ◌/◌, ◌^◌, ◌≤◌, ◌<◌, ◌≡◌, arith, List, ◌∷◌}
use quakernel.Framebuffer.{
  Framebuffer, Store, pixel_store, framebuffer_put_pixel, framebuffer_get_size_in_bytes,
}

-- The framebuffer's bytes, and all that an index four times as large reaches, lie in the address space.
pub record IsPlaced (fbo : Framebuffer) : Type 0 where
  pub rows : fbo.width * (fbo.bits_per_pixel / 8) ≤ fbo.bytes_per_row
  pub fits : fbo.address + 4 * (fbo.height * fbo.bytes_per_row) < 2 ^ 64

-- The byte offset of a pixel in a framebuffer.
abbrev pub offset : Framebuffer → ℕ → ℕ → ℕ
offset fbo x y = y * fbo.bytes_per_row + x * (fbo.bits_per_pixel / 8)

pub offset-le :
    {fbo : Framebuffer} (x y : ℕ)
    → IsPlaced fbo
    → x < fbo.width
    → y < fbo.height
    → offset fbo x y ≤ fbo.height * fbo.bytes_per_row
offset-le x y p hx hy = grind arith

-- Nothing wraps: the store of a pixel is at four times its byte offset.
pub pixel_store-at :
    (fbo : Framebuffer) (x y rgb : ℕ)
    → IsPlaced fbo
    → x < fbo.width
    → y < fbo.height
    → (pixel_store fbo x y rgb).at ≡ fbo.address + 4 * offset fbo x y
unfolding pixel_store
pixel_store-at fbo x y rgb p hx hy = omega (arith, offset-le x y p hx hy)

-- A pixel in the lower three quarters of the framebuffer, `height ≤ 4 * y`, is stored at or behind the
-- end of the framebuffer, which `FramebufferGetSizeInBytes` gives: the byte offset is used as an
-- index of 32-bit elements.
pub framebuffer_put_pixel-outside :
    (fbo : Framebuffer) (x y rgb : ℕ) (stores : List Store)
    → IsPlaced fbo
    → x < fbo.width
    → y < fbo.height
    → fbo.height ≤ 4 * y
    → (framebuffer_put_pixel fbo x y rgb stores ≡ pixel_store fbo x y rgb ∷ stores)
      × (fbo.address + framebuffer_get_size_in_bytes fbo ≤ (pixel_store fbo x y rgb).at)
unfolding framebuffer_put_pixel framebuffer_get_size_in_bytes
framebuffer_put_pixel-outside fbo x y rgb stores p hx hy low = (
  ground arith,
  omega (
    arith,
    pixel_store-at fbo x y rgb p hx hy,
    mul_mono fbo.height (4 * y) fbo.bytes_per_row low,
    offset-le x y p hx hy,
  ),
)
