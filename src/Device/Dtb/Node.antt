-- ===== src/Device/Dtb/Node.antt =====
-- What the parser does at one node.
use quakernel.Base.{
  ◌⊎◌, ℕ, ◌^◌, ◌<◌, ◌≡◌, refl, true, false, ◌&&◌, Option, some, none, List, ◌∷◌, u8, u32,
}
use native.Mathlib.Nat.{mod-eq_of_lt}
use quakernel.Base.Exec.{modify, returned, undefined, ◌>>=◌}
use quakernel.CString.{StringLib, codes}
use quakernel.Arch.Interrupts.{InterruptControllerType, get_int_ctrl_type_from_dtb_compat}
use quakernel.Device.Uart.{std_16550A, get_uart_std_from_dtb_compat}
use quakernel.Device.Dtb.{
  Fdt, cell, parsed, parse_node_register, controller, serial, DtbState, require_register,
  visit_controller, visit_serial, visit_compatible, visit_node, check_ok_fdt_node_status,
  is_controller, is_some,
}
use quakernel.Device.Dtb.Cells.{three_cells}
use quakernel.Device.Dtb.Register.{SwapsBytes, encode_cell, decode_cell}

module _ (fdt : Fdt) (lib : StringLib) (node : ℕ) (s : DtbState) where
  abbrev prop : List ℕ → Option (List ℕ)
  prop = fdt.getprop node

  -- The type that the node's `compatible` property names.
  abbrev pub IsControllerNode : InterruptControllerType → Type 0
  IsControllerNode kind =
      (compatible : List ℕ) × (prop (codes "compatible") ≡ some compatible)
      × (get_int_ctrl_type_from_dtb_compat lib compatible ≡ kind)
      × (is_controller kind ≡ true)
      × (is_some (prop (codes "interrupt-controller")) ≡ true)

  pub visit_node-visit_controller :
      (kind : InterruptControllerType)
      → IsControllerNode kind
      → visit_node fdt lib node s ≡ visit_controller fdt lib node kind s
  unfolding visit_node visit_compatible
  visit_node-visit_controller kind (c, present, named, known, tag) =
      rw (present, visit_node, named, known, tag) refl

  module _ (kind : InterruptControllerType) (is : IsControllerNode kind) where
    -- A node that is marked as an interrupt controller of a type that the kernel knows, with a register
    -- that can be parsed and without a handle, makes the code read through a null pointer.
    pub visit_node-controller_without_handle :
        (addr size : ℕ)
        → parse_node_register fdt node s ≡ returned (parsed addr size) s
        → prop (codes "phandle") ≡ none
        → visit_node fdt lib node s ≡ undefined
    unfolding visit_controller require_register cell
    visit_node-controller_without_handle addr size e missing =
        rw (visit_node-visit_controller kind is, visit_controller, e, ◌>>=◌, missing) refl

    -- What is found at a node that is marked as an interrupt controller of a type that the kernel
    -- knows, with a register that can be parsed and a handle: its address, size, handle and type.
    pub visit_node-controller_found :
        (addr size phandle : ℕ) (rest : List ℕ)
        → SwapsBytes fdt
        → parse_node_register fdt node s ≡ returned (parsed addr size) s
        → phandle < 2 ^ 32
        → prop (codes "phandle") ≡ some (encode_cell phandle rest)
        → visit_node fdt lib node s
          ≡ returned tt (
              controller
                (record { base_addr = addr; reg_size = size; phandle = phandle; kind = kind })
              ∷ s)
    unfolding visit_controller require_register cell
    visit_node-controller_found addr size phandle rest swaps e fits present =
        rw
          (
            visit_node-visit_controller kind is,
            visit_controller,
            e,
            ◌>>=◌,
            present,
            decode_cell fdt swaps phandle,
            mod-eq_of_lt fits,
          )
          refl

  -- A node that is taken for a serial port: it names one, and is not an interrupt controller.
  abbrev pub IsSerialNode : Type 0
  IsSerialNode =
      (compatible : List ℕ) × (prop (codes "compatible") ≡ some compatible)
      × ((is_controller (get_int_ctrl_type_from_dtb_compat lib compatible)
            && is_some (prop (codes "interrupt-controller")))
          ≡ false)
      × (get_uart_std_from_dtb_compat lib compatible ≡ std_16550A)

  module _ (is : IsSerialNode) where
    pub visit_node-visit_serial :
        check_ok_fdt_node_status fdt lib node ≡ true
        → visit_node fdt lib node s ≡ visit_serial fdt lib node std_16550A s
    unfolding visit_node visit_compatible
    visit_node-visit_serial ok =
        let (c, present, other, named) = is in rw (present, visit_node, other, named, ok) refl

    -- A serial port whose status is neither missing nor "ok" nor "okay" is passed over.
    pub visit_node-disabled :
        check_ok_fdt_node_status fdt lib node ≡ false → visit_node fdt lib node s ≡ returned tt s
    unfolding visit_node visit_compatible
    visit_node-disabled ok =
        let (c, present, other, named) = is in rw (present, visit_node, other, named, ok) refl

    -- An enabled serial port with a register that can be parsed and without one of the properties
    -- `reg-shift`, `reg-io-width` and `phandle` makes the code read through a null pointer.
    pub visit_node-serial_incomplete :
        (addr size : ℕ)
        → check_ok_fdt_node_status fdt lib node ≡ true
        → parse_node_register fdt node s ≡ returned (parsed addr size) s
        → (prop (codes "reg-shift") ≡ none)
          ⊎ ((prop (codes "reg-io-width") ≡ none) ⊎ (prop (codes "phandle") ≡ none))
        → visit_node fdt lib node s ≡ undefined
    unfolding visit_serial require_register
    visit_node-serial_incomplete addr size ok e missing =
        rw (visit_node-visit_serial ok, visit_serial, e, ◌>>=◌)
          (three_cells fdt (prop (codes "reg-shift")) (prop (codes "reg-io-width"))
            (prop (codes "phandle")) s
            (λ shift width phandle. modify (
              ◌∷◌ (
                serial (record {
                  base_addr = addr;
                  size = u32 size;
                  phandle = phandle;
                  std = std_16550A;
                  reg_shift = u8 shift;
                  reg_io_width_in_bytes = u8 width;
                }))))
            missing)

    -- What is found at an enabled serial port with a register that can be parsed and the properties
    -- `reg-shift`, `reg-io-width` and `phandle`: its address, the low 32 bits of its size, its handle,
    -- and the low bytes of the shift and the width.
    pub visit_node-serial_found :
        (addr size shift width phandle : ℕ) (after_shift after_width after_handle : List ℕ)
        → SwapsBytes fdt
        → check_ok_fdt_node_status fdt lib node ≡ true
        → parse_node_register fdt node s ≡ returned (parsed addr size) s
        → (shift < 2 ^ 32) × (width < 2 ^ 32) × (phandle < 2 ^ 32)
        → prop (codes "reg-shift") ≡ some (encode_cell shift after_shift)
        → prop (codes "reg-io-width") ≡ some (encode_cell width after_width)
        → prop (codes "phandle") ≡ some (encode_cell phandle after_handle)
        → visit_node fdt lib node s
          ≡ returned tt (
              serial (record {
                base_addr = addr;
                size = u32 size;
                phandle = phandle;
                std = std_16550A;
                reg_shift = u8 shift;
                reg_io_width_in_bytes = u8 width;
              })
              ∷ s)
    unfolding visit_serial require_register cell
    visit_node-serial_found addr size shift width phandle after_shift after_width after_handle swaps
          ok e fits ps pw ph =
        rw
          (
            visit_node-visit_serial ok,
            visit_serial,
            e,
            ◌>>=◌,
            ps,
            pw,
            ph,
            decode_cell fdt swaps shift,
            decode_cell fdt swaps width,
            decode_cell fdt swaps phandle,
            mod-eq_of_lt fits.0,
            mod-eq_of_lt fits.1,
            mod-eq_of_lt fits.2,
          )
          refl
