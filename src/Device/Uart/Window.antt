-- ===== src/Device/Uart/Window.antt =====
-- The driver touches nothing but the registers of its port.
use quakernel.Base.{ℕ, ◌+◌, ◌*◌, ◌^◌, ◌≤◌, ◌<◌, ◌≡◌, ◌∙◌, sym, arith, mul_mono}
use quakernel.Device.Uart.{
  UartPort, Register, rbr, thr, lsr, register_index, Bus, uart_try_read_byte_from_register,
  uart_try_write_byte_to_register,
}
use quakernel.Device.Uart.Laws.{
  IsUsable, index-le, register_at, loaded, uart_try_read_byte_from_register_lem,
  uart_try_write_byte_to_register_lem,
}

-- The region that is mapped for the port holds all eight registers and lies in the address space.
pub record HoldsRegisters (p : UartPort) : Type 0 where
  pub holds : 7 * 2 ^ p.reg_shift + p.reg_io_width_in_bytes ≤ p.size
  pub fits : p.base_addr + p.size < 2 ^ 64

-- These bytes are in the region of the port.
abbrev pub InWindow : UartPort → ℕ → ℕ → Type 0
InWindow p bytes addr = (p.base_addr ≤ addr) × (addr + bytes ≤ p.base_addr + p.size)

-- Two buses do the same at every access inside the region of the port.
pub record SameInWindow {S : Type 0} (p : UartPort) (bus bus' : Bus S) : Type 0 where
  pub loads :
      (bytes addr : ℕ) (s : S)
      → InWindow p bytes addr
      → bus.load bytes addr s ≡ bus'.load bytes addr s
  pub stores :
      (bytes addr v : ℕ) (s : S)
      → InWindow p bytes addr
      → bus.store bytes addr v s ≡ bus'.store bytes addr v s

register_at-InWindow :
    (p : UartPort) (r : Register)
    → HoldsRegisters p
    → InWindow p p.reg_io_width_in_bytes (register_at p r)
register_at-InWindow p r h =
    omega (arith, h.holds, h.fits, mul_mono (register_index r) 7 (2 ^ p.reg_shift) (index-le r))

module _ {S : Type 0} (p : UartPort) (bus bus' : Bus S) (u : IsUsable p) (h : HoldsRegisters p)
    (same : SameInWindow p bus bus') where
  same_loaded : (r : Register) (s : S) → loaded bus p r s ≡ loaded bus' p r s
  same_loaded r s =
      same.loads p.reg_io_width_in_bytes (register_at p r) s (register_at-InWindow p r h)

  -- What the receiver and the transmitter do to a device, and their results, depend only on the bytes
  -- of the port's region: with any two buses that do the same there, whatever they do elsewhere, they
  -- do the same. It holds of a supported port whose region holds the eight registers.
  pub uart_InWindow :
      (v : ℕ) (s : S)
      → (uart_try_read_byte_from_register bus p s ≡ uart_try_read_byte_from_register bus' p s)
        × (uart_try_write_byte_to_register bus p v s ≡ uart_try_write_byte_to_register bus' p v s)
  uart_InWindow v s = (
    uart_try_read_byte_from_register_lem bus p s u
        ∙ rw (same_loaded lsr s, same_loaded rbr (loaded bus' p lsr s).1)
            (sym (uart_try_read_byte_from_register_lem bus' p s u)),
    uart_try_write_byte_to_register_lem bus p v s u
        ∙ rw
            (
              same_loaded lsr s,
              same.stores p.reg_io_width_in_bytes (register_at p thr) v (loaded bus' p lsr s).1
                  (register_at-InWindow p thr h),
            )
            (sym (uart_try_write_byte_to_register_lem bus' p v s u)),
  )
