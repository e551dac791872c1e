-- ===== src/Tests/Boot.antt =====
-- The boot with answers that are there, and without.
use quakernel.Base.{ℕ, ◌⊎◌, All, if◌then◌else◌, ◌≡◌, refl, arith, none, some, [], ◌∷◌}
use quakernel.Base.Int.{ℤ, pos, negsuc}
use quakernel.Base.Exec.{halted}
use quakernel.Memory.Arena.{create}
use quakernel.Framebuffer.{from_limine}
use quakernel.CString.{codes}
use quakernel.Console.Grid.{stored, text_pixels, end_of, place, screen_at}
use quakernel.Console.Safety.{HasDrawn}
use quakernel.Device.Dtb.{Fdt}
use quakernel.Kernel.{MemmapEntry, BootLoader, KernelState, choose_arena, kernel_main}
use quakernel.Kernel.Boot.{answering, kernel_main-stops, kernel_main-greets}
use quakernel.Memory.Arena.Laws.{run}
use quakernel.Memory.Arena.Laws.Layout.{total, layout}
use quakernel.Kernel.Boot.Early.{requests, run-choose_arena}
use quakernel.Framebuffer.Picture.{shown, InFramebuffer, IsWordPixels, IsWithin}
use quakernel.Console.Grid.Picture.{is_painted}
use quakernel.Kernel.Boot.Silent.{HasPassed, kernel_main-HasPassed}
use quakernel.Kernel.Boot.Shown.{kernel_main-shown}
use quakernel.Tests.Screen.{limine_vga, vga_screen}

abbrev blob : ℤ → Fdt
blob code = record {
  totalsize = 40;
  check_full = λ n. code;
  getprop = λ node name. none;
  parent_offset = λ node. negsuc 0;
  address_cells = λ node. pos 2;
  size_cells = λ node. pos 2;
  next_node = λ node. negsuc 0;
  fdt32_to_cpu = λ w. w;
}

abbrev reserved : MemmapEntry
reserved = record { base = 0; length = 0x1_0000; kind = 1 }

abbrev ram : MemmapEntry
ram = record { base = 0x8000_0000; length = 0x100_0000; kind = 0 }

abbrev fresh : KernelState
fresh = record {
  pre_init_arena = record { mem_block = record { base_addr = 0; size = 0 }; used = 0 };
  screen = vga_screen;
}

-- Two requests to the arena that is chosen from the second entry.
run-choose_arena_example :
    run
      (record {
        arena = choose_arena 0 0x1000 (reserved ∷ ram ∷ []) fresh.pre_init_arena;
        live = [];
      })
      (requests (16 ∷ 0x1000 ∷ []))
    ≡ record {
      arena = record {
        mem_block = record { base_addr = 0x8000_1000; size = 0x100_0000 };
        used = 0x1010;
      };
      live =
          record { base_addr = 0x8000_1010; size = 0x1000 }
          ∷ record { base_addr = 0x8000_1000; size = 16 }
          ∷ [];
    }
unfolding total layout
run-choose_arena_example =
    run-choose_arena 0 0x1000 (reserved ∷ []) [] ram fresh.pre_init_arena (16 ∷ 0x1000 ∷ [])
      (refl, tt) refl (omega arith) (omega arith) (omega arith)

abbrev silent : BootLoader
silent = record (answering 0 0x1000 ram [] limine_vga [] (blob (pos 0))) { framebuffer = some [] }

kernel_main-stops_example :
    (k' : KernelState) × (kernel_main silent fresh ≡ halted k') × (k'.screen ≡ vga_screen)
kernel_main-stops_example = kernel_main-stops silent fresh refl

-- Where the boot ends on this machine, with the cursor behind the 17 characters.
abbrev greeted : KernelState
greeted = record {
  pre_init_arena = create (record { base_addr = 0x8000_1000; size = 0x100_0000 });
  screen =
      screen_at (from_limine limine_vga) (17, 0)
        (stored (from_limine limine_vga) 0xff5555
          (text_pixels 79 29 (0, 0) (codes "Hello Quakernel !")) []);
}

kernel_main-greets_example :
    (kernel_main (answering 0 0x1000 ram [] limine_vga [] (blob (pos 0))) fresh ≡ halted greeted)
    × HasDrawn (from_limine limine_vga) [] 0xff5555 greeted.screen
unfolding choose_arena end_of place
kernel_main-greets_example =
    kernel_main-greets 0 0x1000 ram [] limine_vga [] (blob (pos 0)) fresh refl (omega arith)
      (omega arith)

ends_greeted :
    kernel_main (answering 0 0x1000 ram [] limine_vga [] (blob (pos 0))) fresh ≡ halted greeted
unfolding choose_arena end_of place
ends_greeted =
    (kernel_main-greets 0 0x1000 ram [] limine_vga [] (blob (pos 0)) fresh refl (omega arith)
      (omega arith)).0

kernel_main-HasPassed_example :
    (greeted.screen.stores ≡ [])
    ⊎ HasPassed (answering 0 0x1000 ram [] limine_vga [] (blob (pos 0)))
kernel_main-HasPassed_example =
    kernel_main-HasPassed (answering 0 0x1000 ram [] limine_vga [] (blob (pos 0))) fresh greeted
      ends_greeted

vga-IsWordPixels : IsWordPixels (from_limine limine_vga)
vga-IsWordPixels = record { placed = omega arith; deep = refl; words = refl }

kernel_main-shown_example :
    (k' : KernelState) × (kernel_main (answering 0 0x1000 ram [] limine_vga [] (blob (pos 0))) fresh
      ≡ halted k')
    × All (IsWithin (from_limine limine_vga)) k'.screen.stores
    × ((x y : ℕ)
        → InFramebuffer (from_limine limine_vga) x y
        → shown (from_limine limine_vga) x y k'.screen.stores ≡ (
            if is_painted
              (from_limine limine_vga)
              x
              y
              (text_pixels 79 29 (0, 0) (codes "Hello Quakernel !"))
            then some 0xff5555
            else shown (from_limine limine_vga) x y []))
kernel_main-shown_example =
    kernel_main-shown 0 0x1000 ram [] limine_vga [] (blob (pos 0)) fresh refl (omega arith)
      (omega arith) (omega arith) vga-IsWordPixels tt
