-- ===== src/BootManager/Files.antt =====
-- Application/BootManager2D/src/FileSystems.c, `ReadFile` and `LocateCurFSHandle` (the same text in
-- BootManager3D). The firmware is a parameter: each of its calls gives a status and, through a
-- pointer, a handle; `none` is a pointer that was not set. `Read` delivers bytes, and their number is
-- what it stores in `*Size`. The calls of `Close` and `FreePool` are left out.
pub mod Outcomes
use uefi_game.Prelude.{
  ℕ, not, Option, none, some, List, if◌then◌else◌, length, Result, ok, ◌>>=◌, or_fault,
}
use uefi_game.Efi.{Efi}
use uefi_game.Disk.{deliver}

pub record BootServices : Type 0 where
  pub file_system : ℕ → ℕ × Option ℕ
  pub open_volume : ℕ → ℕ × Option ℕ
  pub open_file : ℕ → List ℕ → ℕ × Option ℕ
  pub file_size : ℕ → Option ℕ
  pub zero_pool : ℕ → List ℕ
  pub read_bytes : ℕ → ℕ → ℕ × List ℕ
  pub device_handle : ℕ × Option ℕ

-- The status, and `*Data` and `*Size` where they are set.
pub record FileRead : Type 0 where
  pub status : ℕ
  pub contents : Option (List ℕ × ℕ)

abbrev pub unread : ℕ → FileRead
unread s = record { status = s; contents = none }

module _ (efi : Efi) (bs : BootServices) where
  pub read_opened : ℕ → Result FileRead
  read_opened file = do
    size ← or_fault (bs.file_size file)
    let got = bs.read_bytes file size
    buffer ← deliver got.1 (bs.zero_pool size)
    ok (record { status = got.0; contents = some (buffer, length got.1) })

  -- A call that may fail: `if (CheckError(Status, …)) return Status;`, and then a use of the pointer.
  abbrev pub checked : ℕ × Option ℕ → (ℕ → Result FileRead) → Result FileRead
  checked call rest =
      if efi.efi_error call.0 then ok (unread call.0) else (or_fault call.1 >>= rest)

  -- `filename` is `none` for a null pointer.
  unfoldable pub read_file : ℕ → Option (List ℕ) → Result FileRead
  unfolding read_opened deliver
  read_file handle none = ok (unread efi.efi_invalid_parameter)
  read_file handle (some filename) =
      checked (bs.file_system handle)
        λ fs. checked (bs.open_volume fs) λ root. checked (bs.open_file root filename) read_opened

  -- `self` is `SelfFSHandle` before the call; the result is the status and `SelfFSHandle` after it.
  unfoldable pub locate_cur_fs_handle : ℕ → Result (ℕ × ℕ)
  locate_cur_fs_handle self =
      let found = or_fault bs.device_handle.1 >>= λ handle. ok (bs.device_handle.0, handle) in
      if not (efi.efi_error bs.device_handle.0) then found else ok (bs.device_handle.0, self)
