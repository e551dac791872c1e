-- ===== src/Lib.antt =====
-- The C code of Quakernel, a small RISC-V kernel, modelled and verified.
--
-- The kernel is started by the Limine boot loader in `KernelMain` (kernel/src/main.c). It checks the
-- boot loader's answers, puts a linear arena on the first usable piece of memory, takes over the first
-- framebuffer, has libfdt validate the device tree, prints a greeting on the text console, and waits for
-- ever. Beside that it holds the code that it is going to use: the computation of the free memory blocks,
-- the walk over the device tree, the driver of a serial port, and a sort of byte arrays.
--
-- The parts of the program and their files:
-- - Memory: kernel/src/memory. Memory/Block is `mem_block_t` with `MemCompareBlocksByAddr`,
--   Memory/Align is `AlignDown` and `AlignUp` (Memory/Align/Nearest: as nearest multiples),
--   Memory/Arena is linear_arena.c, and Memory/FreeBlocks is `QKEmitFreeAlignedMemBlocks`, one
--   function for each of its loops. Memory/Arena/Laws/Layout is an arena as its client sees it,
--   and Memory/Arena/Laws/Wrap one whose sums wrap round. Memory/Sorting is an array of blocks under
--   `InsertionSort`, Memory/Handover puts the sort and the free blocks together, and Memory/Arenas an
--   arena on each of these.
-- - InsertionSort: `InsertionSort` of kernel/src/lib/c_lib.c, on an array of bytes.
--   InsertionSort/Elements and Loop carry it over to lists of elements, and InsertionSort/Order and
--   Stability say what sorted means.
-- - CString: the pointers to text that the kernel compares. Arch/Interrupts: the names of interrupt
--   controllers in kernel/src/arch/riscv64/interrupts.c and kernel/src/arch/interrupts.h. Arch/X86:
--   kernel/src/arch/x86_64. Memory/Size: the constants of c_lib.h and
--   kernel/src/arch/riscv64/memory.c.
-- - Device/Uart: kernel/src/device/uart.c and uart.h; Device/Uart/Receive is the driver while bytes
--   arrive on the line, Device/Uart/Transmit what becomes of the bytes that it writes, and
--   Device/Uart/Idle both on a device with nothing to send. Device/Dtb: kernel/src/device/dtb_parse.c.
--   Device/Dtb/Walk says which devices the nodes of a tree describe, apart from the parser,
--   Device/Dtb/Walk/Breaks at which nodes the walk breaks off, and Device/Dtb/Typed in which ranges
--   the fields of what it finds are; Device/Dtb/Names is what the name of a node makes of it.
--   Device/Driven gives the ports that the parser finds to the driver.
-- - Font: kernel/src/font/font.c and font.h, the table byte for byte.
-- - Framebuffer, Console and Kernel: kernel/src/main.c. Framebuffer is `InitFramebuffer`, `PackPixel`,
--   `FramebufferGetSizeInBytes` and `FramebufferPutPixel`; Console is `DefaultFbConsole` and `QPrint`;
--   Kernel is `KernelMain`. Framebuffer/Picture reads pixels back from where they stand in the
--   framebuffer. Console/Grid is the reference for what a text looks like, by cells, and
--   Console/Grid/Picture what the screen then shows. Kernel/Boot/Early is the arena that the start of
--   the kernel chooses, as its client finds it, Kernel/Boot/Shown the screen at its end, and
--   Kernel/Boot/Silent what must have been checked before.
-- - Base: numbers of 8 to 64 bits, lists, bits, and the state of an execution. Tests: concrete runs.
--
-- How code becomes a definition. A function that changes memory takes its state and returns the new one
-- beside the result. Where the code can stop the machine or do what C leaves undefined, it is an `Exec`
-- (Base/Exec): from a state, a result with a new state, `halted` for `hcf()` and the failed checks, or
-- `undefined`, for a read through a null pointer or behind an array, a shift by too much, or a missing
-- result. Numbers are natural numbers with the wrap-around of their C type written out. The framebuffer
-- is the sequence of the stores made to it, the newest first. The array of free blocks is a list. A
-- pointer to text or to a property of the device tree is the bytes from it on.
--
-- Parameters, with what the code relies on: the functions of libfdt (`Fdt`; where a theorem needs it,
-- `SwapsBytes` says that `fdt32_to_cpu` reverses four bytes, `ReturnsWord` that its result has 32 bits,
-- and `GoesForward` that `fdt_next_node` goes forward inside the blob), `strncmp` and `memcpy` of the C
-- library (`StringLib`, `MemLib`), the bus behind the registers of the serial port (`Bus`), the answers
-- of the boot loader (`BootLoader`), the instructions `out` and `cli` of the x86-64 (`Cpu`), and the
-- comparison function of the sort. `Receiver` (Device/Uart/Receive) is what the data sheet of the 16550A
-- says of the line status and of the receiver buffer, and `Transmitter` (Device/Uart/Transmit) what it
-- says of the holding register without FIFOs. Tests and the Standard files give functions that satisfy
-- them.
--
-- Bounds. `for`-loops with a counter are structural recursion. The walk over the device tree is the
-- one loop with fuel: the size of the blob is enough. The signed index of the sort's inner loop
-- becomes negative above `2 ^ 63` elements, and then the loop does not run. A `char` is unsigned, as
-- in the RISC-V ABI. `ParseDtb` drops what it builds in each round and is not called yet; here what it
-- builds is kept, so that something can be said of it. Offsets of nodes are natural numbers, as the
-- functions of libfdt that return negative codes are told apart before their result is used.
--
-- Limits of the model. A store to the framebuffer goes to the log wherever it lands: outside of the
-- framebuffer C leaves it undefined. The bus of the serial port answers at every address, though C
-- leaves an access undefined that is not aligned to its width or goes through a null pointer. The
-- entries of the memory map are reached without a null pointer, as the boot protocol has it. The
-- arena's null pointer is told apart from a grant at the address 0, where no block of the kernel lies.
--
-- Not modelled: the kernel's copies of a C library and of libfdt and the boot protocol's header, which are
-- not the kernel's own code, the linker scripts and the build files, and `qk_ppm_t`,
-- `dtb_interrupt_request` and `MAX_PAGES_TOTAL`, which nothing uses.
pub mod Base
pub mod Memory
pub mod Font
pub mod Framebuffer
pub mod Console
pub mod Device
pub mod CString
pub mod Arch
pub mod InsertionSort
pub mod Kernel
mod Tests
