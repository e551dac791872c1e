-- ===== src/Framebuffer.antt =====
-- The framebuffer of kernel/src/main.c: its description, taken from the boot loader's answer, and
-- the store of a pixel. Device memory is the sequence of the stores made to it, the newest first.
pub mod Address
pub mod Pixel
pub mod Picture
use quakernel.Base.{
  ℕ, ◌^◌, ◌-◌, ◌/◌, Bool, ◌||◌, Option, none, some, List, ◌∷◌, leb, ltb, if◌then◌else◌, get_elem?,
  bit_or, add64, mul64, ◌<<<◌, ◌>>>◌,
}
use quakernel.Base.Exec.{Exec, fault, from_option, pure, ◌>>=◌}

-- What the kernel reads of a `limine_framebuffer`. The type is that of limine.h.
pub record LimineFramebuffer : Type 0 where
  pub address : ℕ
  pub width : ℕ
  pub height : ℕ
  pub pitch : ℕ
  pub bpp : ℕ
  pub memory_model : ℕ
  pub red_mask_size : ℕ
  pub red_mask_shift : ℕ
  pub green_mask_size : ℕ
  pub green_mask_shift : ℕ
  pub blue_mask_size : ℕ
  pub blue_mask_shift : ℕ

-- `framebuffer_t`
pub record Framebuffer : Type 0 where
  pub address : ℕ
  pub width : ℕ
  pub height : ℕ
  pub bytes_per_row : ℕ
  pub bits_per_pixel : ℕ
  pub memory_model : ℕ
  pub red_mask_size : ℕ
  pub red_mask_shift : ℕ
  pub green_mask_size : ℕ
  pub green_mask_shift : ℕ
  pub blue_mask_size : ℕ
  pub blue_mask_shift : ℕ

abbrev pub from_limine : LimineFramebuffer → Framebuffer
from_limine limine_fbo = record {
  address = limine_fbo.address;
  width = limine_fbo.width;
  height = limine_fbo.height;
  bytes_per_row = limine_fbo.pitch;
  bits_per_pixel = limine_fbo.bpp;
  memory_model = limine_fbo.memory_model;
  red_mask_size = limine_fbo.red_mask_size;
  red_mask_shift = limine_fbo.red_mask_shift;
  green_mask_size = limine_fbo.green_mask_size;
  green_mask_shift = limine_fbo.green_mask_shift;
  blue_mask_size = limine_fbo.blue_mask_size;
  blue_mask_shift = limine_fbo.blue_mask_shift;
}

-- `InitFramebuffer`, on `framebuffer_request.response`: `none` is the null pointer, and the list is the
-- array `framebuffers` of pointers.
unfoldable pub init_framebuffer :
    {S : Type 0} → Option (List (Option LimineFramebuffer)) → Exec S Framebuffer
init_framebuffer response = do
  framebuffers ← from_option response
  pointer ← from_option (get_elem? framebuffers 0)
  limine_fbo ← from_option pointer
  pure (from_limine limine_fbo)

-- `FramebufferGetSizeInBytes`
pub framebuffer_get_size_in_bytes : Framebuffer → ℕ
framebuffer_get_size_in_bytes fb = mul64 fb.height fb.bytes_per_row

-- `( channel >> (8 - maskSize) ) << maskShift`. The shifts are on `int`: a count below 0 or above 31 is
-- undefined, and so is a result that an `int` does not hold.
pack_channel : ℕ → ℕ → ℕ → Option ℕ
pack_channel channel mask_shift mask_size =
    let packed = channel >>> (8 - mask_size) <<< mask_shift in
    if ltb 8 mask_size || leb 32 mask_shift || leb (2 ^ 31) packed then none else some packed

-- `PackPixel`
pub pack_pixel : {S : Type 0} → (r g b r_shift g_shift b_shift r_size g_size b_size : ℕ) → Exec S ℕ
pack_pixel r g b r_shift g_shift b_shift r_size g_size b_size = do
  red ← from_option (pack_channel r r_shift r_size)
  green ← from_option (pack_channel g g_shift g_size)
  blue ← from_option (pack_channel b b_shift b_size)
  pure (bit_or (bit_or red green) blue)

-- A store of a 32-bit value at a byte address.
pub record Store : Type 0 where
  pub at : ℕ
  pub value : ℕ

-- The store that `FramebufferPutPixel` makes: `pFb` points to 32-bit elements, so `pFb[index]` stands
-- at four times the index.
pub pixel_store : Framebuffer → ℕ → ℕ → ℕ → Store
pixel_store fbo x y rgb =
    let bytes_per_pixel = fbo.bits_per_pixel / 8 in
    let index = add64 (mul64 y fbo.bytes_per_row) (mul64 x bytes_per_pixel) in
    record { at = add64 fbo.address (mul64 4 index); value = rgb }

-- `FramebufferPutPixel`, on the stores made so far.
unfoldable pub framebuffer_put_pixel : Framebuffer → ℕ → ℕ → ℕ → List Store → List Store
framebuffer_put_pixel fbo x y rgb stores =
    if leb fbo.width x || leb fbo.height y then stores else pixel_store fbo x y rgb ∷ stores
