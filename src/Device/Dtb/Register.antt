-- ===== src/Device/Dtb/Register.antt =====
-- The `reg` property: what `ParseNodeRegister` reads is what was encoded there.
use quakernel.Base.{
  ℕ, ◌+◌, ◌*◌, ◌/◌, ◌%◌, ◌^◌, ◌<◌, ◌≡◌, refl, ap, arith, ◌⊎◌, inl, inr, some, List, ◌∷◌, bit_or,
  u64, ◌<<<◌, if◌then◌else◌, ◌==◌,
}
use quakernel.Base.Bits.{bit_or_above}
use quakernel.Base.Int.{pos}
use quakernel.Base.Exec.{returned, ◌>>=◌}
use quakernel.CString.{codes}
use quakernel.Device.Dtb.{Fdt, cell, read_addr, read_size, checked, parsed, parse_node_register}

-- The device tree is big-endian, and the machine is not.
abbrev pub SwapsBytes : Fdt → Type 0
SwapsBytes fdt =
    (b0 b1 b2 b3 : ℕ)
    → b0 < 256
    → b1 < 256
    → b2 < 256
    → b3 < 256
    → fdt.fdt32_to_cpu (b0 + b1 * 2 ^ 8 + b2 * 2 ^ 16 + b3 * 2 ^ 24)
      ≡ b0 * 2 ^ 24 + b1 * 2 ^ 16 + b2 * 2 ^ 8 + b3

-- A cell of 32 bits, the highest byte first.
abbrev pub encode_cell : ℕ → List ℕ → List ℕ
encode_cell v rest = (v / 2 ^ 24 % 256) ∷ (v / 2 ^ 16 % 256) ∷ (v / 2 ^ 8 % 256) ∷ (v % 256) ∷ rest

-- A number in none, one or two cells, the higher cell first.
abbrev pub encode : ℕ → ℕ → List ℕ → List ℕ
encode cells v rest =
    if cells == 2
    then encode_cell (v / 2 ^ 32) (encode_cell v rest)
    else if cells == 1
    then encode_cell v rest
    else rest

-- The counts of cells that the function handles.
abbrev pub IsCellCount : ℕ → Type 0
IsCellCount n = (n ≡ 0) ⊎ ((n ≡ 1) ⊎ (n ≡ 2))

module _ (fdt : Fdt) (swaps : SwapsBytes fdt) where
  abbrev cell_bytes : ℕ → ℕ
  cell_bytes v =
      v / 2 ^ 24 % 256 + v / 2 ^ 16 % 256 * 2 ^ 8 + v / 2 ^ 8 % 256 * 2 ^ 16 + v % 256 * 2 ^ 24

  pub decode_cell : (v : ℕ) → fdt.fdt32_to_cpu (cell_bytes v) ≡ v % 2 ^ 32
  decode_cell v = omega (
    arith,
    swaps (v / 2 ^ 24 % 256) (v / 2 ^ 16 % 256) (v / 2 ^ 8 % 256) (v % 256) (omega arith)
        (omega arith) (omega arith) (omega arith),
  )

  join_cells :
      (v : ℕ)
      → v < 2 ^ 64
      → bit_or
          (u64 (fdt.fdt32_to_cpu (cell_bytes (v / 2 ^ 32)) <<< 32))
          (fdt.fdt32_to_cpu (cell_bytes v))
        ≡ v
  join_cells v h =
      rw (decode_cell (v / 2 ^ 32), decode_cell v)
        (ground (arith, bit_or_above 32 (v / 2 ^ 32) (v % 2 ^ 32) (omega arith)))

  read_addr_lem :
      {S : Type 0} (n v : ℕ) (rest : List ℕ) (s : S)
      → IsCellCount n
      → v < 2 ^ (32 * n)
      → read_addr fdt n (some (encode n v rest)) s ≡ returned (v, n) s
  unfolding read_addr cell
  read_addr_lem n v rest s (inl e) h =
      let small : v < 2 ^ (32 * 0) = rw e at h in
      rw e (ap (λ (w : ℕ). returned (w, 0) s) (omega arith))
  read_addr_lem n v rest s (inr (inl e)) h =
      let small : v < 2 ^ (32 * 1) = rw e at h in
      rw e (ap (λ (w : ℕ). returned (w, 1) s) (omega (arith, decode_cell v)))
  read_addr_lem n v rest s (inr (inr e)) h =
      let small : v < 2 ^ (32 * 2) = rw e at h in
      rw e (ap (λ (w : ℕ). returned (w, 2) s) (join_cells v small))

  read_addr-many :
      {S : Type 0} (n v : ℕ) (rest : List ℕ) (s : S)
      → 2 < n
      → v < 2 ^ 32
      → read_addr fdt n (some (encode_cell v rest)) s ≡ returned (v, 1) s
  unfolding read_addr cell
  read_addr-many n v rest s many h = ground (arith, decode_cell v)

  -- The size stands behind the cells of the address.
  read_size_lem :
      {S : Type 0} (n k a v : ℕ) (rest : List ℕ) (s : S)
      → IsCellCount n
      → IsCellCount k
      → v < 2 ^ (32 * n)
      → read_size fdt n k (some (encode k a (encode n v rest))) s ≡ returned v s
  unfolding read_size cell
  read_size_lem n k a v rest s (inl e) k' h =
      let small : v < 2 ^ (32 * 0) = rw e at h in rw e (ap (λ (w : ℕ). returned w s) (omega arith))
  read_size_lem n k a v rest s (inr (inl e)) k' h =
      let small : v < 2 ^ (32 * 1) = rw e at h in
      let value = ap (λ (w : ℕ). returned w s) (omega (arith, decode_cell v)) in
      elim k' [
        | inl k0 ↦ rw (e, k0) value
        | inr (inl k1) ↦ rw (e, k1) value
        | inr (inr k2) ↦ rw (e, k2) value
      ]
  read_size_lem n k a v rest s (inr (inr e)) k' h =
      let small : v < 2 ^ (32 * 2) = rw e at h in
      let value = ap (λ (w : ℕ). returned w s) (join_cells v small) in
      elim k' [
        | inl k0 ↦ rw (e, k0) value
        | inr (inl k1) ↦ rw (e, k1) value
        | inr (inr k2) ↦ rw (e, k2) value
      ]

  -- With a `fdt32_to_cpu` that swaps the bytes: for a node whose parent has none, one or two cells
  -- each for addresses and sizes, and whose `reg` property begins with an address and a size encoded
  -- in those cells, the function returns 0 with that address and size.
  pub parse_node_register-encode :
      {S : Type 0} (node parent addr_cells size_cells addr size : ℕ) (rest : List ℕ) (s : S)
      → IsCellCount addr_cells
      → IsCellCount size_cells
      → addr < 2 ^ (32 * addr_cells)
      → size < 2 ^ (32 * size_cells)
      → fdt.parent_offset node ≡ pos parent
      → fdt.address_cells parent ≡ pos addr_cells
      → fdt.size_cells parent ≡ pos size_cells
      → fdt.getprop node (codes "reg") ≡ some (encode addr_cells addr (encode size_cells size rest))
      → parse_node_register fdt node s ≡ returned (parsed addr size) s
  unfolding parse_node_register checked
  parse_node_register-encode node parent a c addr size rest s ha hc fa fs ep ea es reg =
      rw
        (
          ep,
          checked,
          ea,
          checked,
          es,
          checked,
          reg,
          read_addr_lem a addr (encode c size rest) s ha fa,
          ◌>>=◌,
          reg,
          read_size_lem c a addr size rest s hc ha fs,
        )
        refl

  -- With a `fdt32_to_cpu` that swaps the bytes: for a node whose parent has three or more cells for
  -- addresses, the first cell of the `reg` property is taken for the whole address, and the size is
  -- taken from the cells behind it, which still belong to the address.
  pub parse_node_register-many_cells :
      {S : Type 0} (node parent addr_cells size_cells first second : ℕ) (rest : List ℕ) (s : S)
      → 2 < addr_cells
      → IsCellCount size_cells
      → first < 2 ^ 32
      → second < 2 ^ (32 * size_cells)
      → fdt.parent_offset node ≡ pos parent
      → fdt.address_cells parent ≡ pos addr_cells
      → fdt.size_cells parent ≡ pos size_cells
      → fdt.getprop node (codes "reg") ≡ some (encode 1 first (encode size_cells second rest))
      → parse_node_register fdt node s ≡ returned (parsed first second) s
  unfolding parse_node_register checked
  parse_node_register-many_cells node parent a c first second rest s many hc fa fs ep ea es reg =
      rw
        (
          ep,
          checked,
          ea,
          checked,
          es,
          checked,
          reg,
          read_addr-many a first (encode c second rest) s many fa,
          ◌>>=◌,
          reg,
          read_size_lem c 1 first second rest s hc (inr (inl refl)) fs,
        )
        refl
