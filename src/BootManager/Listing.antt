-- ===== src/BootManager/Listing.antt =====
-- Application/BootManager2D/src/Config.c, `ParseTexturesConfigFile` (the same text in BootManager3D).
-- `zero_pool` stands for `AllocateZeroPool`, from a number of bytes to the pointers there,
-- `ascii_str_len` for `AsciiStrLen` and `to_unicode` for `AsciiStrToUnicodeStrS`, as in Entries.antt:
-- they get the bytes from a pointer on.
pub mod Names
pub mod Whole
use uefi_game.Prelude.{
  ◌>>=◌, ℕ, ◌+◌, ◌*◌, Option, none, some, List, ◌==◌, if◌then◌else◌, wrap, drop, Result, ok,
  or_fault, load, store, for_loop,
}
use uefi_game.Efi.{Efi}
use uefi_game.BootManager.Files.{BootServices, read_file}

-- The variables of the second loop; `none` is a null pointer.
pub record Listing : Type 0 where
  pub file_data : List ℕ
  pub textures_files : List (Option (List ℕ))
  pub cur_texture : ℕ
  pub cur_file_name_start : ℕ

-- The status, and `*TexturesFiles` and `*TexturesCount` where they are set.
pub record TexturesConfig : Type 0 where
  pub status : ℕ
  pub textures : Option (List (Option (List ℕ)) × ℕ)

-- One round of the loop that counts the lines.
pub count_line : List ℕ → ℕ → ℕ → Result ℕ
count_line file i n = do cur ← load file i; ok (if cur == b'\n' then n + 1 else n)

module _ (zero_pool : ℕ → List (Option (List ℕ))) (ascii_str_len : List ℕ → ℕ)
    (to_unicode : List ℕ → ℕ → ℕ × List ℕ) where
  -- The end of a line: its name is converted.
  pub end_name : ℕ → Listing → Result Listing
  unfolding wrap
  end_name i l = do
    file ← store l.file_data i 0
    let name = drop l.cur_file_name_start file
    let name_size = wrap (ascii_str_len name + 1)
    files ← store l.textures_files l.cur_texture (some (to_unicode name name_size).1)
    ok (record {
      file_data = file;
      textures_files = files;
      cur_texture = l.cur_texture + 1;
      cur_file_name_start = i + 1;
    })

  pub list_char : ℕ → Listing → Result Listing
  unfolding end_name
  list_char i l = do
    let ended = end_name i l
    cur ← load l.file_data i
    if cur == b'\n' then ended else ok l

  -- What follows the reading of the file.
  unfoldable pub list_names : List ℕ → ℕ → Result (List (Option (List ℕ)) × ℕ)
  unfolding wrap for_loop count_line list_char
  list_names file size = do
    count ← for_loop size 0 (count_line file) 0
    l ← for_loop size 0 list_char (record {
      file_data = file;
      textures_files = zero_pool (wrap (8 * count));
      cur_texture = 0;
      cur_file_name_start = 0;
    })
    ok (l.textures_files, count)

  unfoldable pub parse_textures_config_file :
      Efi → BootServices → ℕ → Option (List ℕ) → Result TexturesConfig
  unfolding read_file list_names
  parse_textures_config_file efi bs self filename = do
    read ← read_file efi bs self filename
    let listed = do
      (file, size) ← or_fault read.contents
      names ← list_names file size
      ok (record { status = read.status; textures = some names })
    if efi.efi_error read.status
        then ok (record { status = read.status; textures = none })
        else listed
