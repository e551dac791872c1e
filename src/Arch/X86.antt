-- ===== src/Arch/X86.antt =====
-- The code for the x86-64 in kernel/src/arch/x86_64: `PutCharSerial` of serial.c and `hcf` of
-- interrupts.c.
use quakernel.Base.{ℕ}
use quakernel.Base.Exec.{Exec, halted, modify}

-- The processor's instructions that the code contains as assembly: `out` of a byte to a port, and
-- `cli`.
pub record Cpu (S : Type 0) : Type 0 where
  pub out : (port byte : ℕ) → S → S
  pub cli : S → S

abbrev pub com1 : ℕ
com1 = 0x3f8

module _ {S : Type 0} (cpu : Cpu S) where
  -- `PutCharSerial`
  unfoldable pub put_char_serial : ℕ → Exec S (Unit {0})
  put_char_serial c = modify (cpu.out com1 c)

  -- `hcf`: interrupts are off, and then the processor waits for ever.
  unfoldable pub hcf : Exec S (Unit {0})
  hcf s = halted (cpu.cli s)
