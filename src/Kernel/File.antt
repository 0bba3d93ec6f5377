-- ===== src/Kernel/File.antt =====
-- Application/XV6/xv6.c, `LoadFile`. The firmware is a parameter: a call gives a status and, through a
-- pointer, a handle; `none` is a pointer that was not set. `file_size` is the size in the
-- `EFI_FILE_INFO`; `read` is the status of `Read` and the memory behind it.
pub mod Steps
use uefi_game.Prelude.{
  ℕ, ◌+◌, ◌/◌, Bool, Option, none, some, List, if◌then◌else◌, wrap, Result, ok, ◌>>=◌, or_fault,
}
use uefi_game.Kernel.{Memory}

pub record KernelFirmware : Type 0 where
  pub efi_error : ℕ → Bool
  pub simple_file : ℕ × Option ℕ
  pub open_volume : ℕ → ℕ × Option ℕ
  pub open_file : ℕ → List ℕ → ℕ × Option ℕ
  pub file_size : ℕ → ℕ × ℕ
  pub allocate_pages : ℕ → ℕ × ℕ
  pub read : ℕ → ℕ → ℕ → Memory → ℕ × Memory

-- The status, and `*FileAddr` and `*FilePageSize` where they are set.
pub record LoadedFile : Type 0 where
  pub status : ℕ
  pub file_page_size : Option ℕ
  pub file_addr : Option ℕ
  pub memory : Memory

abbrev pub unloaded : ℕ → Memory → LoadedFile
unloaded status m = record { status = status; file_page_size = none; file_addr = none; memory = m }

-- `(FileSize + 4095) / 4096` on `UINTN`.
unfoldable pub page_count : ℕ → ℕ
unfolding wrap
page_count file_size = wrap (file_size + 4095) / 4096

module _ (fw : KernelFirmware) where
  -- From `AllocatePages` on.
  pub read_pages : ℕ → ℕ → Memory → LoadedFile
  unfolding page_count
  read_pages file size m =
      let pages = page_count size in
      let allocated = fw.allocate_pages pages in
      let got = fw.read file size allocated.1 m in
      if fw.efi_error allocated.0
      then record {
        status = allocated.0;
        file_page_size = some pages;
        file_addr = some allocated.1;
        memory = m;
      }
      else record {
        status = got.0;
        file_page_size = some pages;
        file_addr = some allocated.1;
        memory = got.1;
      }

  -- A call that may fail: `if (EFI_ERROR (Status)) … return Status;`, and then a use of the pointer.
  abbrev pub opened : ℕ × Option ℕ → Memory → (ℕ → Result LoadedFile) → Result LoadedFile
  opened call m rest =
      if fw.efi_error call.0 then ok (unloaded call.0 m) else (or_fault call.1 >>= rest)

  unfoldable pub load_file : List ℕ → Memory → Result LoadedFile
  unfolding read_pages
  load_file file_name m = opened fw.simple_file m λ simple_file.
      opened (fw.open_volume simple_file) m λ root. opened (fw.open_file root file_name) m λ file.
        let info = fw.file_size file in
        if fw.efi_error info.0 then ok (unloaded info.0 m) else ok (read_pages file info.1 m)
