-- ===== src/BootManager/Boot.antt =====
-- Application/BootManager2D/src/Main.c, `BootEntry`, and what `UefiMain` gets from the platform (the
-- same text in BootManager3D). `str_to_guid` is the GUID that `StrToGuid` leaves in `entry_guid`;
-- `load_image` and `loaded_image` stand for `LoadImage` and `HandleProtocol`, with `none` for a
-- pointer that was not set.
pub mod First
use uefi_game.Prelude.{
  ◌>>=◌, ℕ, zero, suc, ◌+◌, ◌*◌, ◌%◌, ◌^◌, Option, none, some, List, ◌==◌, if◌then◌else◌, take,
  Result, ok, or_fault, load,
}
use uefi_game.Efi.{Efi}
use uefi_game.Pixels.{Pixel}
use uefi_game.BootManager.Files.{BootServices, FileRead, read_file}
use uefi_game.BootManager.Entries.{BootEntry, Config, parse_config_file}
use uefi_game.BootManager.Partitions.{Node, Partition}

pub record Platform : Type 0 where
  pub efi : Efi
  pub boot_services : BootServices
  pub entry_pool : ℕ → List BootEntry
  pub char_pool : ℕ → List ℕ
  pub name_pool : ℕ → List (Option (List ℕ))
  pub number_pool : ℕ → List ℕ
  pub pixel_pool : ℕ → List Pixel
  pub image_pool : ℕ → List (List Pixel)
  pub partition_pool : ℕ → Option (List Partition)
  pub allocate_pool : ℕ → List (List Pixel)
  pub reallocate_pool : ℕ → ℕ → List (List Pixel) → List (List Pixel)
  pub to_unicode : List ℕ → ℕ → ℕ × List ℕ
  pub ascii_str_len : List ℕ → ℕ
  pub sscanf : List ℕ → Result (Option (ℕ × ℕ))
  pub rand : ℕ → ℕ
  pub handle_buffer : ℕ × List ℕ
  pub device_path : ℕ → Option (List Node)
  pub screen : Option (ℕ × ℕ)
  pub str_to_guid : Option (List ℕ) → ℕ
  pub str_len : List ℕ → ℕ
  pub load_image : ℕ → Option (List ℕ) → ℕ × Option ℕ
  pub loaded_image : ℕ → Option ℕ

-- A call of `StartImage`: the image, and what its protocol says of the options.
pub record Start : Type 0 where
  pub child_handle : ℕ
  pub protocol : ℕ
  pub load_options : Option (List ℕ)
  pub load_options_size : ℕ

-- What `BootEntry` returns, and what it has started.
pub record Booted : Type 0 where
  pub status : ℕ
  pub started : Option Start

-- The application waits for a key, or has returned.
pub data Outcome : Type 0 where
  waits : Outcome
  returns : Booted → Outcome

-- A status, and nothing started.
abbrev pub unstarted : ℕ → Booted
unstarted status = record { status = status; started = none }

module _ (p : Platform) where
  open p use {efi}

  -- `boot_entry.options ? (StrLen(boot_entry.options) + 1) * sizeof(CHAR16) : 0`, as a `UINT32`.
  pub options_size : Option (List ℕ) → ℕ
  options_size none = 0
  options_size (some options) = (p.str_len options + 1) * 2 % 2 ^ 32

  unfoldable pub start_child : BootEntry → ℕ × Option ℕ → Result Booted
  unfolding options_size
  start_child entry loaded = do
    child ← or_fault loaded.1
    protocol ← or_fault (p.loaded_image child)
    ok (record {
      status = loaded.0;
      started = some (record {
        child_handle = child;
        protocol = protocol;
        load_options = entry.options;
        load_options_size = options_size entry.options;
      });
    })

  -- The part behind the test of the GUID.
  unfoldable pub start_from : BootEntry → Partition → Result Booted
  unfolding start_child
  start_from entry partition =
      let loaded = p.load_image partition.handle entry.loader_name in
      if efi.efi_error loaded.0 then ok (unstarted loaded.0) else start_child entry loaded

  -- `n` rounds of the loop, from index `i` on.
  pub try_partitions : BootEntry → List Partition → ℕ → ℕ → Result Booted
  unfolding start_from
  try_partitions entry partitions zero i = ok (unstarted efi.efi_success)
  try_partitions entry partitions (suc n) i = do
    let rest = try_partitions entry partitions n (i + 1)
    partition ← load partitions i
    guid ← or_fault partition.guid
    if p.str_to_guid entry.volume_guid == guid then start_from entry partition else rest

  unfoldable pub boot_entry : BootEntry → List Partition → ℕ → Result Booted
  unfolding try_partitions
  boot_entry entry partitions partitions_count = try_partitions entry partitions partitions_count 0

  -- `ReadFile` on the name of a configuration file, whatever its status, and `ParseConfigFile` on what
  -- it has stored; of the buffer the first `length` bytes are looked at.
  unfoldable pub read_config_file : ℕ → List ℕ → Result Config
  unfolding read_file parse_config_file
  read_config_file self filename = do
    read ← read_file efi p.boot_services self (some filename)
    (file, size) ← or_fault read.contents
    parse_config_file (take size file) p.char_pool p.to_unicode efi.efi_success p.entry_pool
