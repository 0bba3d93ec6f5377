-- ===== src/Kernel/Start/Jumps.antt =====
-- The kernel in its place, and the tables for it.
use uefi_game.Prelude.{ℕ, ◌+◌, ◌^◌, ◌≤◌, ◌<◌, ◌≡◌, arith, some, ok, Returns, Returns-ok}
use mathlib.Core.Path.{subst}
use uefi_game.Kernel.{Memory, u32_in, load_kernel}
use uefi_game.Kernel.Segments.{AreCopies}
use uefi_game.Kernel.Loading.{IsTable, InPlace, table_of, count_of, load_kernel_lem}
use uefi_game.Kernel.File.{KernelFirmware, LoadedFile, load_file}
use uefi_game.Kernel.Tables.{fill_boot}
use uefi_game.Kernel.Tables.Flat.{PointsAway, IsReady, fill_boot_lem}
use uefi_game.Kernel.Start.{ExitServices, kernel_path, parameters_address, Jump, uefi_main}

u32_lt : (m : Memory) (a : ℕ) → ((b : ℕ) → m b < 256) → u32_in m a < 2 ^ 64
u32_lt m a h = omega (arith, h a, h (a + 1), h (a + 2), h (a + 2 + 1))

module _ {S : Type 0} (fw : KernelFirmware) (services : ExitServices S)
    (copy_mem : ℕ → ℕ → ℕ → Memory → Memory) (set_mem : ℕ → ℕ → ℕ → Memory → Memory)
    (copies : AreCopies copy_mem set_mem) (buffer size : ℕ) (small : buffer + size < 2 ^ 64) where
  -- The memory after the loop on the segments.
  abbrev pub after_segments : LoadedFile → Memory
  after_segments file = (load_kernel copy_mem set_mem buffer file.memory).memory

  -- The segments, and then the tables over them.
  pub record IsLaidOut (file : LoadedFile) (j : Jump) : Type 0 where
    pub segments :
        InPlace copy_mem set_mem copies buffer size small file.memory
          (table_of copy_mem set_mem copies buffer size small file.memory)
          (count_of copy_mem set_mem copies buffer size small file.memory)
          (count_of copy_mem set_mem copies buffer size small file.memory)
          (after_segments file)
    pub tables :
        IsReady (u32_in file.memory (buffer + 24)) parameters_address (after_segments file) j.memory

  -- `CopyMem` and `SetMem` copy and fill the ranges they are called for. The file is loaded at
  -- `buffer` into a memory of bytes and is an ELF file of 28 bytes or more, with its headers and
  -- the segments to load in it and their places apart from the buffer and from one another; when
  -- they are loaded, the ten bytes that the pointer at 0x50030 points to are apart from the
  -- structure at 0x50000. Then `UefiMain` comes to the jump without a fault. The loop on the
  -- segments has put them in their places and changed no other byte; over this, also where a
  -- segment lies there, the entry address of the file and the flat tables are in the structure,
  -- the pointed-to bytes have the place and the last byte of the table, and no byte has changed
  -- but these.
  pub kernel_main_lem :
      (m : Memory) (s : S) (file : LoadedFile) (pages : ℕ)
      → load_file fw kernel_path m ≡ ok file
      → file.file_addr ≡ some buffer
      → file.file_page_size ≡ some pages
      → ((a : ℕ) → file.memory a < 256)
      → 28 ≤ size
      → IsTable copy_mem set_mem copies buffer size small file.memory
          (table_of copy_mem set_mem copies buffer size small file.memory)
          (count_of copy_mem set_mem copies buffer size small file.memory)
      → PointsAway parameters_address (after_segments file)
      → Returns (IsLaidOut file) (uefi_main fw services copy_mem set_mem m s)
  unfolding uefi_main
  kernel_main_lem m s file pages loads there counted bytes head table away =
      let loaded =
        load_kernel_lem copy_mem set_mem copies buffer size small file.memory head table in
      let kernel = load_kernel copy_mem set_mem buffer file.memory in
      let low : kernel.entry_address < 2 ^ 64 =
        rw (loaded.1) (u32_lt file.memory (buffer + 24) bytes) in
      let done = fill_boot kernel.entry_address parameters_address kernel.memory in
      let filled = fill_boot_lem kernel.entry_address parameters_address kernel.memory low away in
      rw (loads, there, counted)
        (Returns-ok (record {
          segments = loaded.0;
          tables = subst (λ e. IsReady e parameters_address kernel.memory done) loaded.1 filled;
        }))
