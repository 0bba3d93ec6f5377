-- ===== src/BootManager/Numbers.antt =====
-- Application/BootManager2D/src/Config.c, `ParseMazeConfigFile` (the same text in BootManager3D).
-- `zero_pool` stands for `AllocateZeroPool`, from a number of bytes to the `INTN`s there, and `sscanf`
-- for `sscanf` with "%lld%n" on the bytes from a pointer on: the number and how many bytes it has
-- read, `none` where it finds no number, and a fault where it reads behind the bytes.
pub mod Rows
pub mod Scan
pub mod Whole
use uefi_game.Prelude.{
  ℕ, ◌+◌, ◌-◌, ◌*◌, ◌^◌, Bool, true, false, Option, none, some, List, ◌==◌, if◌then◌else◌, wrap,
  drop, Result, ok, ◌>>=◌, or_fault, load, store, for_loop,
}
use uefi_game.Efi.{Efi}
use uefi_game.BootManager.Files.{BootServices, read_file}

-- `*Height`, `*Width` and `CurWidth`.
pub record Measuring : Type 0 where
  pub height : ℕ
  pub width : ℕ
  pub cur_width : ℕ

-- `-1` as a `UINTN`.
abbrev pub no_width : ℕ
no_width = 2 ^ 64 - 1

-- The variables of the loop on the numbers; `failed` says that the function has returned.
pub record Scanning : Type 0 where
  pub numbers : List ℕ
  pub cur_buffer : ℕ
  pub failed : Bool

-- `*Numbers`, `*Width` and `*Height`.
pub record Grid : Type 0 where
  pub numbers : List ℕ
  pub width : ℕ
  pub height : ℕ

-- The status, and what is stored behind the pointers where it is.
pub record MazeConfig : Type 0 where
  pub status : ℕ
  pub grid : Option Grid

-- One round of the loop that counts. A row of another width than the first is only reported.
pub measure_char : List ℕ → ℕ → Measuring → Result Measuring
unfolding wrap
measure_char file i m = do
  cur ← load file i
  ok (
      if cur == b' '
      then record m { cur_width = wrap (m.cur_width + 1) }
      else if cur == b'\n'
      then record {
        height = wrap (m.height + 1);
        width = if m.width == no_width then m.cur_width else m.width;
        cur_width = 1;
      }
      else m)

pub take_number : ℕ → Scanning → Option (ℕ × ℕ) → Result Scanning
take_number i s none = ok (record s { failed = true })
take_number i s (some (number, read)) = do
  numbers ← store s.numbers i number
  ok (record { numbers = numbers; cur_buffer = s.cur_buffer + read; failed = false })

module _ (sscanf : List ℕ → Result (Option (ℕ × ℕ))) where
  pub scan_number : List ℕ → ℕ → Scanning → Result Scanning
  unfolding take_number
  scan_number file i s =
      let scanned = sscanf (drop s.cur_buffer file) >>= take_number i s in
      if s.failed then ok s else scanned

  module _ (zero_pool : ℕ → List ℕ) where
    -- What follows the reading of the file, but for the status: whether a number was missing.
    unfoldable pub parse_numbers : List ℕ → ℕ → Result (Bool × Grid)
    unfolding wrap for_loop measure_char scan_number
    parse_numbers file size = do
      m ←
          for_loop size 0 (measure_char file)
            (record { height = 0; width = no_width; cur_width = 1 })
      s ← for_loop (wrap (m.width * m.height)) 0 (scan_number file) (record {
        numbers = zero_pool (wrap (wrap (m.width * m.height) * 8));
        cur_buffer = 0;
        failed = false;
      })
      ok (s.failed, record { numbers = s.numbers; width = m.width; height = m.height })

    unfoldable pub parse_maze_config_file :
        Efi → BootServices → ℕ → Option (List ℕ) → Result MazeConfig
    unfolding read_file parse_numbers
    parse_maze_config_file efi bs self filename = do
      read ← read_file efi bs self filename
      let parsed = do
        (file, size) ← or_fault read.contents
        (failed, grid) ← parse_numbers file size
        ok (record {
          status = if failed then efi.efi_invalid_parameter else read.status;
          grid = some grid;
        })
      if efi.efi_error read.status
          then ok (record { status = read.status; grid = none })
          else parsed
