-- ===== src/Tests/X86.antt =====
-- The ports of an x86-64, with the bytes that went out, the last one first, and the interrupt flag.
use quakernel.Base.{ℕ, ◌≡◌, refl, Bool, true, false, List, [], ◌∷◌}
use quakernel.Base.Exec.{halted, ◌>>◌}
use quakernel.Arch.X86.{Cpu, put_char_serial, hcf}

record Ports : Type 0 where
  interrupts : Bool
  sent : List (ℕ × ℕ)

abbrev ports : Cpu Ports
ports = record {
  out = λ port byte s. record s { sent = (port, byte) ∷ s.sent };
  cli = λ s. record s { interrupts = false };
}

abbrev quiet : Ports
quiet = record { interrupts = true; sent = [] }

sends_in_order :
    ((do put_char_serial ports 72; put_char_serial ports 105; hcf ports) quiet)
    ≡ halted (record { interrupts = false; sent = (0x3f8, 105) ∷ (0x3f8, 72) ∷ [] })
unfolding put_char_serial hcf
sends_in_order = refl
