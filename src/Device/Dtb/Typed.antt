-- ===== src/Device/Dtb/Typed.antt =====
-- What the parser finds fits the types of its structs (kernel/src/device/dtb_parse.c, uart.h and
-- kernel/src/arch/interrupts.h), whatever the device tree holds.
pub mod Register
use quakernel.Base.{
  ℕ, zero, suc, ◌+◌, ◌*◌, ◌^◌, ◌<◌, ◌≡◌, refl, arith, Bool, true, false, Bool-cases, Option-cases,
  ◌&&◌, inl, inr, Option, some, List, All, ◌==◌, bit_or, u64, ◌<<<◌, if◌then◌else◌,
}
use quakernel.Base.Bits.{bit_or_above}
use quakernel.Base.Int.{ℤ, pos, negsuc}
use quakernel.Base.Exec.{Exec, from_option, pure, when, ◌>>=◌}
use quakernel.Base.Yields.{Yields, Yields-bind, Yields-mono, from_option-Yields}
use quakernel.CString.{StringLib, codes}
use quakernel.Arch.Interrupts.{InterruptControllerType, get_int_ctrl_type_from_dtb_compat}
use quakernel.Device.Uart.{UartStandard, std_16550A, std_invalid, get_uart_std_from_dtb_compat}
use quakernel.Device.Dtb.{
  Fdt, Found, controller, serial, DtbState, RegisterResult, failed, parsed, cell, word_at,
  read_addr, read_size, checked, parse_node_register, require_register, visit_controller,
  visit_serial, visit_compatible, visit_node, visit_from, parse_dtb, is_controller, is_serial,
  is_some, check_ok_fdt_node_status,
}
use quakernel.Device.Dtb.Typed.Register.{
  ReturnsWord, IsTypedRegister, cell-Yields, parse_node_register-Yields,
}

-- Each field is in the range of its C type.
abbrev pub IsTyped : Found → Type 0
IsTyped (controller c) = (c.base_addr < 2 ^ 64) × (c.reg_size < 2 ^ 64) × (c.phandle < 2 ^ 32)
IsTyped (serial p) =
    (p.base_addr < 2 ^ 64)
    × (p.size < 2 ^ 32)
    × (p.phandle < 2 ^ 32)
    × (p.reg_shift < 2 ^ 8)
    × (p.reg_io_width_in_bytes < 2 ^ 8)
    × (p.std ≡ std_16550A)

module _ (fdt : Fdt) (lib : StringLib) (word : ReturnsWord fdt) where
  abbrev AllTyped : DtbState → Type 0
  AllTyped s = All IsTyped s

  require_register-Yields :
      (r : RegisterResult) (s : DtbState)
      → IsTypedRegister r
      → AllTyped s
      → Yields AllTyped
          (λ (b : ℕ × ℕ). (b.0 < 2 ^ 64) × (b.1 < 2 ^ 64))
          (require_register fdt lib r s)
  unfolding require_register
  require_register-Yields (failed code) s h q = q
  require_register-Yields (parsed addr size) s h q = (h, q)

  -- What follows on a register that could be parsed.
  register-Yields :
      {A : Type 0} (P : A → Type 0) (node : ℕ) (k : ℕ × ℕ → Exec DtbState A) (s : DtbState)
      → AllTyped s
      → ((b : ℕ × ℕ) (s' : DtbState)
          → (b.0 < 2 ^ 64) × (b.1 < 2 ^ 64)
          → AllTyped s'
          → Yields AllTyped P (k b s'))
      → Yields AllTyped P
          ((do reg ← parse_node_register fdt node; b ← require_register fdt lib reg; k b) s)
  register-Yields P node k s q h =
      Yields-bind AllTyped IsTypedRegister P (parse_node_register fdt node) _ s
        (parse_node_register-Yields fdt word AllTyped node s q)
        λ r s1 hr q1.
          Yields-bind AllTyped (λ (b : ℕ × ℕ). (b.0 < 2 ^ 64) × (b.1 < 2 ^ 64)) P
            (require_register fdt lib r) k s1 (require_register-Yields r s1 hr q1) h

  visit_controller-Yields :
      (node : ℕ) (kind : InterruptControllerType) (s : DtbState)
      → AllTyped s
      → Yields AllTyped (λ _. Unit {0}) (visit_controller fdt lib node kind s)
  unfolding visit_controller
  visit_controller-Yields node kind s q =
      register-Yields (λ _. Unit {0}) node _ s q
        λ b s1 h q1.
          Yields-bind AllTyped (λ w. w < 2 ^ 32) (λ _. Unit {0})
            (cell fdt (fdt.getprop node (codes "phandle")) 0) _ s1
            (cell-Yields fdt word AllTyped (fdt.getprop node (codes "phandle")) 0 s1 q1)
            λ phandle s2 hp q2. (tt, ((h.0, h.1, hp), q2))

  visit_serial-Yields :
      (node : ℕ) (s : DtbState)
      → AllTyped s
      → Yields AllTyped (λ _. Unit {0}) (visit_serial fdt lib node std_16550A s)
  unfolding visit_serial
  visit_serial-Yields node s q =
      let prop = fdt.getprop node in
      let load = cell-Yields fdt word AllTyped in
      register-Yields (λ _. Unit {0}) node _ s q
        λ b s1 h q1.
          Yields-bind AllTyped (λ w. w < 2 ^ 32) (λ _. Unit {0})
            (cell fdt (prop (codes "reg-shift")) 0) _ s1 (load (prop (codes "reg-shift")) 0 s1 q1)
            λ shift s2 h2 q2.
              Yields-bind AllTyped (λ w. w < 2 ^ 32) (λ _. Unit {0})
                (cell fdt (prop (codes "reg-io-width")) 0) _ s2
                (load (prop (codes "reg-io-width")) 0 s2 q2)
                λ width s3 h3 q3.
                  Yields-bind AllTyped (λ w. w < 2 ^ 32) (λ _. Unit {0})
                    (cell fdt (prop (codes "phandle")) 0) _ s3
                    (load (prop (codes "phandle")) 0 s3 q3)
                    λ phandle s4 h4 q4.
                      (tt, ((h.0, omega arith, h4, omega arith, omega arith, refl), q4))

  serial-Yields :
      (node : ℕ) (std : UartStandard) (enabled : Bool) (s : DtbState)
      → AllTyped s
      → Yields AllTyped
          (λ _. Unit {0})
          ((if is_serial std then when enabled (visit_serial fdt lib node std) else pure tt) s)
  serial-Yields node std_invalid enabled s q = (tt, q)
  serial-Yields node std_16550A true s q = visit_serial-Yields node s q
  serial-Yields node std_16550A false s q = (tt, q)

  visit_compatible-Yields :
      (node : ℕ) (compatible : List ℕ) (s : DtbState)
      → AllTyped s
      → Yields AllTyped (λ _. Unit {0}) (visit_compatible fdt lib node compatible s)
  unfolding visit_compatible
  visit_compatible-Yields node compatible s q =
      let kind = get_int_ctrl_type_from_dtb_compat lib compatible in
      let std = get_uart_std_from_dtb_compat lib compatible in
      elim (Bool-cases
        (is_controller kind && is_some (fdt.getprop node (codes "interrupt-controller")))) [
          | inl is ↦ rw is (visit_controller-Yields node kind s q)
          | inr not' ↦ rw not' (serial-Yields node std (check_ok_fdt_node_status fdt lib node) s q)
        ]

  visit_node-Yields :
      (node : ℕ) (s : DtbState)
      → AllTyped s
      → Yields AllTyped (λ _. Unit {0}) (visit_node fdt lib node s)
  unfolding visit_node
  visit_node-Yields node s q = elim (Option-cases (fdt.getprop node (codes "compatible"))) [
    | inl e ↦ rw (e, visit_node) (tt, q)
    | inr (names, e) ↦ rw (e, visit_node) (visit_compatible-Yields node names s q)
  ]

  visit_from-Yields :
      (fuel : ℕ) (z : ℤ) (s : DtbState)
      → AllTyped s
      → Yields AllTyped (λ (b : Bool). Unit {0}) (visit_from fdt lib fuel z s)
  unfolding visit_from
  visit_from-Yields zero z s q = (tt, q)
  visit_from-Yields (suc fuel) (pos node) s q =
      Yields-bind AllTyped (λ _. Unit {0}) (λ (b : Bool). Unit {0}) (visit_node fdt lib node) _ s
        (visit_node-Yields node s q) λ _ s1 _ q1. visit_from-Yields fuel (fdt.next_node node) s1 q1
  visit_from-Yields (suc fuel) (negsuc code) s q = (tt, q)

  -- Whatever the device tree holds, and however far the walk gets: if it returns, runs out of fuel or
  -- stops the machine, then every field of what was found is in the range of its C type, and every port
  -- is a 16550A. `fdt32_to_cpu` returns words of 32 bits.
  pub parse_dtb-IsTyped :
      (fuel : ℕ) (s : DtbState)
      → All IsTyped s
      → Yields (λ s'. All IsTyped s') (λ (b : Bool). Unit {0}) (parse_dtb fdt lib fuel s)
  unfolding parse_dtb
  parse_dtb-IsTyped fuel s q = visit_from-Yields fuel (pos 0) s q
