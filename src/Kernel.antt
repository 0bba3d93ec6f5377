-- ===== src/Kernel.antt =====
-- Application/XV6/xv6.c, `UefiMain`: the ELF segments of the kernel are copied to their places. The
-- memory is a function from addresses to bytes; `copy_mem` and `set_mem` stand for `CopyMem` and
-- `SetMem`, and `buffer` is where `LoadFile` has put the file.
pub mod Segments
pub mod Loading
pub mod File
pub mod Pages
pub mod Tables
pub mod Start
use uefi_game.Prelude.{ℕ, zero, suc, ◌+◌, ◌-◌, ◌*◌, ltb, ◌==◌, if◌then◌else◌, wrap}

-- Memory
abbrev pub Memory : Type 0
Memory = ℕ → ℕ

-- `proghdr`
pub record ProgramHeader : Type 0 where
  pub type : ℕ
  pub off : ℕ
  pub vaddr : ℕ
  pub paddr : ℕ
  pub filesz : ℕ
  pub memsz : ℕ
  pub flags : ℕ
  pub align : ℕ

-- Little-endian numbers of two and of four bytes.
abbrev pub u16_in : Memory → ℕ → ℕ
u16_in m a = m a + 256 * m (a + 1)

abbrev pub u32_in : Memory → ℕ → ℕ
u32_in m a = u16_in m a + 65536 * u16_in m (a + 2)

abbrev pub header_at : Memory → ℕ → ProgramHeader
header_at m a = record {
  type = u32_in m a;
  off = u32_in m (a + 4);
  vaddr = u32_in m (a + 8);
  paddr = u32_in m (a + 12);
  filesz = u32_in m (a + 16);
  memsz = u32_in m (a + 20);
  flags = u32_in m (a + 24);
  align = u32_in m (a + 28);
}

-- `elfhdr`
pub record ElfHeader : Type 0 where
  pub magic : ℕ
  pub elf : ℕ → ℕ
  pub type : ℕ
  pub machine : ℕ
  pub version : ℕ
  pub entry : ℕ
  pub phoff : ℕ
  pub shoff : ℕ
  pub flags : ℕ
  pub ehsize : ℕ
  pub phentsize : ℕ
  pub phnum : ℕ
  pub shentsize : ℕ
  pub shnum : ℕ
  pub shstrndx : ℕ

abbrev pub elf_header_at : Memory → ℕ → ElfHeader
elf_header_at m a = record {
  magic = u32_in m a;
  elf = λ k. m (a + 4 + k);
  type = u16_in m (a + 16);
  machine = u16_in m (a + 18);
  version = u32_in m (a + 20);
  entry = u32_in m (a + 24);
  phoff = u32_in m (a + 28);
  shoff = u32_in m (a + 32);
  flags = u32_in m (a + 36);
  ehsize = u16_in m (a + 40);
  phentsize = u16_in m (a + 42);
  phnum = u16_in m (a + 44);
  shentsize = u16_in m (a + 46);
  shnum = u16_in m (a + 48);
  shstrndx = u16_in m (a + 50);
}

-- The memory, and `entry_address`.
pub record Kernel : Type 0 where
  pub memory : Memory
  pub entry_address : ℕ

module _ (copy_mem : ℕ → ℕ → ℕ → Memory → Memory) (set_mem : ℕ → ℕ → ℕ → Memory → Memory)
    (buffer : ℕ) where
  -- One round of the second loop on the headers; the sizes are read again after the copy.
  pub load_segment : ℕ → Memory → Memory
  unfolding wrap
  load_segment ph m =
      let header = header_at m ph in
      let copied = copy_mem header.paddr (wrap (buffer + header.off)) header.filesz m in
      let now = header_at copied ph in
      let filled =
        if ltb now.filesz now.memsz
        then set_mem (header.paddr + now.filesz) (now.memsz - now.filesz) 0 copied
        else copied in
      if header.type == 1 then filled else m

  -- The loop, on `n` headers from the address `ph` on.
  pub load_segments : ℕ → ℕ → Memory → Memory
  unfolding load_segment
  load_segments zero ph m = m
  load_segments (suc n) ph m = load_segments n (ph + 32) (load_segment ph m)

  unfoldable pub load_kernel : Memory → Kernel
  unfolding load_segments
  load_kernel m =
      let elf = elf_header_at m buffer in
      let loaded = load_segments elf.phnum (buffer + elf.phoff) m in
      record { memory = loaded; entry_address = (elf_header_at loaded buffer).entry }
