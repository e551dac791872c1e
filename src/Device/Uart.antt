-- ===== src/Device/Uart.antt =====
-- The 16550A driver of kernel/src/device/uart.c and uart.h.
pub mod Laws
pub mod Compat
pub mod Window
pub mod Receive
pub mod Transmit
pub mod Idle
pub mod Faults
use quakernel.Base.{
  ℕ, ◌*◌, ◌^◌, ◌||◌, Bool, true, false, List, [], ◌∷◌, ◌++◌, leb, ltb, ◌==◌, if◌then◌else◌, add64,
  bit_and, u8, ◌<<<◌,
}
use quakernel.CString.{StringLib, codes, is_same}
use quakernel.Base.Exec.{Exec, fault, pure, modify, ◌>>=◌, ◌>>◌}

-- `uart_standard`
pub data UartStandard : Type 0 where
  std_invalid std_16550A : UartStandard

abbrev pub uart_16550a_compat : List ℕ
uart_16550a_compat = codes "ns16550a"

abbrev pub uart_ky_x1_compat : List ℕ
uart_ky_x1_compat = codes "ky,pxa-uart"

-- `GetUartStdFromDtbCompat`; the constants end in their 0.
unfoldable pub get_uart_std_from_dtb_compat : StringLib → List ℕ → UartStandard
get_uart_std_from_dtb_compat lib dtb_compat =
    if is_same lib dtb_compat (uart_16550a_compat ++ 0 ∷ [])
    then std_16550A
    else if is_same lib dtb_compat (uart_ky_x1_compat ++ 0 ∷ [])
    then std_16550A
    else std_invalid

-- `uart_port`
pub record UartPort : Type 0 where
  pub base_addr : ℕ
  pub size : ℕ
  pub phandle : ℕ
  pub std : UartStandard
  pub reg_shift : ℕ
  pub reg_io_width_in_bytes : ℕ

-- `uart_16550A_register`
pub data Register : Type 0 where
  rbr thr ier iir fcr lcr mcr lsr msr scr : Register

abbrev pub register_index : Register → ℕ
register_index rbr = 0x00
register_index thr = 0x00
register_index ier = 0x01
register_index iir = 0x02
register_index fcr = 0x02
register_index lcr = 0x03
register_index mcr = 0x04
register_index lsr = 0x05
register_index msr = 0x06
register_index scr = 0x07

-- The hardware behind the registers: a volatile load or store of some bytes at an address. A load may
-- change the device.
pub record Bus (S : Type 0) : Type 0 where
  pub load : (bytes addr : ℕ) → S → ℕ × S
  pub store : (bytes addr value : ℕ) → S → S

module _ {S : Type 0} (bus : Bus S) where
  load_bytes : ℕ → ℕ → Exec S ℕ
  load_bytes bytes addr s = let (v, s') = bus.load bytes addr s in pure v s'

  -- `baseAddr + (uartReg << regShift)`: the shift is on `int`, undefined for a count above 31 or a
  -- result that an `int` does not hold.
  register_address : ℕ → ℕ → Register → Exec S ℕ
  register_address base_addr reg_shift uart_reg =
      if ltb 31 reg_shift || leb (2 ^ 31) (register_index uart_reg <<< reg_shift)
      then fault
      else pure (add64 base_addr (register_index uart_reg <<< reg_shift))

  -- The `switch` of a read. With any other width `dataOut` is returned without having been written.
  read_by_width : ℕ → ℕ → Exec S ℕ
  read_by_width reg_io_width reg =
      if reg_io_width == 1
      then (do data_out ← load_bytes 1 reg; pure (u8 data_out))
      else if reg_io_width == 2
      then (do data_out ← load_bytes 2 reg; pure (bit_and data_out 0xFF))
      else if reg_io_width == 4
      then (do data_out ← load_bytes 4 reg; pure (bit_and data_out 0xFF))
      else if reg_io_width == 8
      then (do data_out ← load_bytes 8 reg; pure (bit_and data_out 0xFF))
      else fault

  -- `Uart16550AReadRegister`
  pub uart_16550A_read_register : ℕ → ℕ → ℕ → Register → Exec S ℕ
  uart_16550A_read_register base_addr reg_shift reg_io_width uart_reg = do
    reg ← register_address base_addr reg_shift uart_reg
    read_by_width reg_io_width reg

  -- The `switch` of a write. With any other width nothing is written.
  write_by_width : ℕ → ℕ → ℕ → Exec S (Unit {0})
  write_by_width reg_io_width reg data_in =
      if reg_io_width == 1
      then modify (bus.store 1 reg data_in)
      else if reg_io_width == 2
      then modify (bus.store 2 reg data_in)
      else if reg_io_width == 4
      then modify (bus.store 4 reg data_in)
      else if reg_io_width == 8
      then modify (bus.store 8 reg data_in)
      else pure tt

  -- `Uart16550AWriteRegister`
  pub uart_16550A_write_register : ℕ → ℕ → ℕ → Register → ℕ → Exec S (Unit {0})
  uart_16550A_write_register base_addr reg_shift reg_io_width uart_reg data_in = do
    reg ← register_address base_addr reg_shift uart_reg
    write_by_width reg_io_width reg data_in

  -- A register of a port, read and written.
  abbrev pub read_port : UartPort → Register → Exec S ℕ
  read_port p uart_reg =
      uart_16550A_read_register p.base_addr p.reg_shift p.reg_io_width_in_bytes uart_reg

  abbrev pub write_port : UartPort → Register → ℕ → Exec S (Unit {0})
  write_port p uart_reg data_in =
      uart_16550A_write_register p.base_addr p.reg_shift p.reg_io_width_in_bytes uart_reg data_in

  -- The body for a 16550A port. For any other standard the function ends without a result.
  pub for_16550A : {A : Type 0} → UartStandard → Exec S A → Exec S A
  for_16550A std_16550A body = body
  for_16550A std_invalid body = fault

  read_if_ready : UartPort → ℕ → Exec S (Bool × ℕ)
  read_if_ready p status =
      if 0x01 == status then (do byte ← read_port p rbr; pure (true, byte)) else pure (false, 0)

  -- `UartTryReadByteFromRegister`, with what it leaves in `*_out`. Its argument `byte` is not used.
  pub uart_try_read_byte_from_register : UartPort → Exec S (Bool × ℕ)
  uart_try_read_byte_from_register p =
      for_16550A p.std (do status ← read_port p lsr; read_if_ready p status)

  write_if_ready : UartPort → ℕ → ℕ → Exec S Bool
  write_if_ready p data_in status =
      if 0x01 == status then (do write_port p thr data_in; pure true) else pure false

  -- `UartTryWriteByteToRegister`
  pub uart_try_write_byte_to_register : UartPort → ℕ → Exec S Bool
  uart_try_write_byte_to_register p data_in =
      for_16550A p.std (do status ← read_port p lsr; write_if_ready p data_in status)
