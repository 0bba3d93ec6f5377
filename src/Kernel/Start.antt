-- ===== src/Kernel/Start.antt =====
-- Application/XV6/xv6.c, `UefiMain` from the file to the jump, and the memory map of xv6.h. `S` is the
-- state of the firmware; no status is looked at. The tables are put at the address 0x50000, whatever
-- is there; the jump itself is machine code.
pub mod Exits
pub mod Jumps
use uefi_game.Prelude.{ℕ, ◌+◌, Option, none, some, List, [], ◌∷◌, Result, ok, ◌>>=◌, or_fault}
use uefi_game.Kernel.{Memory, load_kernel}
use uefi_game.Kernel.File.{KernelFirmware, load_file}
use uefi_game.Kernel.Pages.{kernel_pages}
use uefi_game.Kernel.Tables.{fill_boot}

pub record MemoryMap : Type 0 where
  pub buffer : Option ℕ
  pub map_size : ℕ
  pub map_key : ℕ
  pub descriptor_size : ℕ
  pub descriptor_version : ℕ

-- `{NULL, 0, 0, 0, 0}`
abbrev pub empty_map : MemoryMap
empty_map = record {
  buffer = none;
  map_size = 0;
  map_key = 0;
  descriptor_size = 0;
  descriptor_version = 0;
}

-- `allocate_pool` gives no pointer where it fails.
pub record ExitServices (S : Type 0) : Type 0 where
  pub get_memory_map : S → MemoryMap → ℕ × MemoryMap
  pub allocate_pool : S → ℕ → S × Option ℕ
  pub exit_boot_services : S → ℕ → ℕ

-- The status of `ExitBootServices`, and the map.
pub record Left : Type 0 where
  pub status : ℕ
  pub memory_map : MemoryMap

-- `AllocatePool` stores its pointer in `Buffer`.
pub put_buffer : Option ℕ → MemoryMap → MemoryMap
put_buffer none m = m
put_buffer (some b) m = record m { buffer = some b }

module _ {S : Type 0} (services : ExitServices S) where
  unfoldable pub leave_boot_services : S → Left
  unfolding put_buffer
  leave_boot_services s =
      let sized = (services.get_memory_map s empty_map).1 in
      let allocated = services.allocate_pool s sized.map_size in
      let full = (services.get_memory_map allocated.0 (put_buffer allocated.1 sized)).1 in
      record { status = services.exit_boot_services allocated.0 full.map_key; memory_map = full }

-- `L"\\kernel"`
abbrev pub kernel_path : List ℕ
kernel_path = b'\\' ∷ b'k' ∷ b'e' ∷ b'r' ∷ b'n' ∷ b'e' ∷ b'l' ∷ []

abbrev pub parameters_address : ℕ
parameters_address = 0x50000

-- What there is at the jump.
pub record Jump : Type 0 where
  pub pages : ℕ × ℕ
  pub memory : Memory
  pub left : Left

module _ {S : Type 0} (fw : KernelFirmware) (services : ExitServices S)
    (copy_mem : ℕ → ℕ → ℕ → Memory → Memory) (set_mem : ℕ → ℕ → ℕ → Memory → Memory) where
  unfoldable pub uefi_main : Memory → S → Result Jump
  unfolding load_file kernel_pages load_kernel fill_boot leave_boot_services
  uefi_main m s = do
    file ← load_file fw kernel_path m
    buffer_address ← or_fault file.file_addr
    buffer_page_size ← or_fault file.file_page_size
    let pages = kernel_pages buffer_address file.memory
    let kernel = load_kernel copy_mem set_mem buffer_address file.memory
    ok (record {
      pages = pages;
      memory = fill_boot kernel.entry_address parameters_address kernel.memory;
      left = leave_boot_services services s;
    })
