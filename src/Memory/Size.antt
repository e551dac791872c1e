-- ===== src/Memory/Size.antt =====
-- The sizes that the kernel counts memory in: kernel/src/lib/c_lib.h and
-- kernel/src/arch/riscv64/memory.c.
use quakernel.Base.{ℕ, ◌*◌, ◌^◌}

-- `binary_prefixes`
abbrev pub kib : ℕ
kib = 2 ^ 10

abbrev pub mib : ℕ
mib = 2 ^ 20

abbrev pub gib : ℕ
gib = 2 ^ 30

abbrev pub tib : ℕ
tib = 2 ^ 40

-- A page of the riscv's sv39.
abbrev pub max_physical_page_size : ℕ
max_physical_page_size = 4 * kib
