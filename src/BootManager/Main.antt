-- ===== src/BootManager/Main.antt =====
-- Application/BootManager2D/src/Main.c, `UefiMain`. `prepare` and `load_textures` are in BootManager3D
-- too, there with another configuration file and without the halving. What is only reported, the
-- size of a texture, is left out.

pub mod Loads
pub mod Setup
pub mod Finish
pub mod Drive
pub mod Whole
use uefi_game.Prelude.{
  ℕ, ◌*◌, ◌⊎◌, inl, inr, Bool, true, false, Option, some, List, [], ◌∷◌, map, ◌==◌, if◌then◌else◌,
  wrap, take, Result, ok, ◌>>=◌, or_fault, load, store, for_loop,
}
use uefi_game.Efi.{Efi}
use uefi_game.Pixels.{Pixel}
use uefi_game.Int32.{extend}
use uefi_game.BootManager.Files.{BootServices, FileRead, read_file, locate_cur_fs_handle}
use uefi_game.BootManager.Bmp.{Image, Bmp, read_bmp}
use uefi_game.BootManager.Graphics.{cut_in_half}
use uefi_game.BootManager.Sprite.{Sprite, parse_sprite}
use uefi_game.BootManager.Entries.{BootEntry, Config}
use uefi_game.BootManager.Partitions.{Partition, Located, locate_fs_partitions}
use uefi_game.BootManager.Listing.{TexturesConfig, parse_textures_config_file}
use uefi_game.BootManager.Numbers.{Grid, MazeConfig, parse_maze_config_file}
use uefi_game.BootManager.Walk.{KeyPress, Walk, escape_entry}
use uefi_game.BootManager.Round.{Setting, maze_game}
use uefi_game.BootManager.Boot.{
  Platform, Booted, Outcome, waits, returns, unstarted, boot_entry, read_config_file,
}

-- `L"2DConfig.txt"`
abbrev pub two_d_config : List ℕ
two_d_config =
    b'2' ∷ b'D' ∷ b'C' ∷ b'o' ∷ b'n' ∷ b'f' ∷ b'i' ∷ b'g' ∷ b'.' ∷ b't' ∷ b'x' ∷ b't' ∷ []

-- `L"MazeConfig.conf"`
abbrev pub maze_config : List ℕ
maze_config =
    b'M' ∷ b'a' ∷ b'z' ∷ b'e' ∷ b'C' ∷ b'o' ∷ b'n' ∷ b'f' ∷ b'i' ∷ b'g' ∷ b'.' ∷ b'c' ∷ b'o' ∷ b'n'
    ∷ b'f' ∷ []

-- `L"TexturesConfig.conf"`
abbrev pub textures_config : List ℕ
textures_config =
    b'T' ∷ b'e' ∷ b'x' ∷ b't' ∷ b'u' ∷ b'r' ∷ b'e' ∷ b's' ∷ b'C' ∷ b'o' ∷ b'n' ∷ b'f' ∷ b'i' ∷ b'g'
    ∷ b'.' ∷ b'c' ∷ b'o' ∷ b'n' ∷ b'f' ∷ []

-- `L"Sprite.txt"`
abbrev pub sprite_txt : List ℕ
sprite_txt = b'S' ∷ b'p' ∷ b'r' ∷ b'i' ∷ b't' ∷ b'e' ∷ b'.' ∷ b't' ∷ b'x' ∷ b't' ∷ []

-- What the files say, before the textures are loaded.
pub record Files : Type 0 where
  pub self : ℕ
  pub config : Config
  pub located : Located
  pub maze : MazeConfig
  pub names : TexturesConfig

-- `Textures` and `Status`; `failed` says that the function has returned.
pub record Loading : Type 0 where
  pub textures : List (List Pixel)
  pub status : ℕ
  pub failed : Bool

module _ (p : Platform) where
  open p use {efi, boot_services, pixel_pool}

  pub read_files : ℕ → Config → Located → Result (ℕ ⊎ Files)
  unfolding parse_maze_config_file parse_textures_config_file
  read_files self config located = do
    maze ← parse_maze_config_file p.sscanf p.number_pool efi boot_services self (some maze_config)
    names ←
        parse_textures_config_file p.name_pool p.ascii_str_len p.to_unicode efi boot_services self
          (some textures_config)
    ok (
        inr
          (record { self = self; config = config; located = located; maze = maze; names = names }))

  pub locate_partitions : ℕ → Config → Result (ℕ ⊎ Files)
  unfolding read_files locate_fs_partitions
  locate_partitions self config = do
    located ←
        locate_fs_partitions efi p.device_path p.partition_pool p.handle_buffer.0 p.handle_buffer.1
    let read = read_files self config located
    if efi.efi_error located.status then ok (inl located.status) else read

  pub read_entries : List ℕ → ℕ → Result (ℕ ⊎ Files)
  unfolding locate_partitions read_config_file
  read_entries filename self = do
    config ← read_config_file p self filename
    let located = locate_partitions self config
    if efi.efi_error config.status then ok (inl config.status) else located

  -- Up to `ParseTexturesConfigFile`; a status on the left has been returned.
  unfoldable pub prepare : List ℕ → Result (ℕ ⊎ Files)
  unfolding read_entries locate_cur_fs_handle
  prepare filename = do
    (status, self) ← locate_cur_fs_handle efi boot_services 0
    let read = read_entries filename self
    if efi.efi_error status then ok (inl status) else read

  -- A round of the loop on the textures; `make` is what is kept of a picture.
  unfoldable pub load_texture :
      (Image → Result (List Pixel)) → ℕ → List (Option (List ℕ)) → ℕ → Loading → Result Loading
  unfolding read_bmp
  load_texture make self names i l =
      let loaded = (do
        name ← load names i
        bmp ← read_bmp efi boot_services pixel_pool self name
        let kept = (do
          image ← or_fault bmp.image
          texture ← make image
          textures ← store l.textures i texture
          ok (record { textures = textures; status = bmp.status; failed = false }))
        if efi.efi_error bmp.status
            then ok (record l { status = bmp.status; failed = true })
            else kept) in
      if l.failed then ok l else loaded

  unfoldable pub load_textures :
      (Image → Result (List Pixel)) → ℕ → ℕ → List (Option (List ℕ)) → ℕ → Result Loading
  unfolding for_loop load_texture wrap
  load_textures make self status names count =
      for_loop count 0 (load_texture make self names)
        (record { textures = p.image_pool (wrap (count * 8)); status = status; failed = false })

  -- `CutInHalf(Texture, Width, Height)`
  unfoldable pub halved : Image → Result (List Pixel)
  unfolding cut_in_half extend
  halved image = cut_in_half pixel_pool image.pixels (extend image.width) (extend image.height)

  -- `ParseSprite` on the name of its file: the status of `ReadFile`, which it does not look at.
  pub read_sprite : ℕ → Result (ℕ × Sprite)
  unfolding read_file parse_sprite
  read_sprite self = do
    read ← read_file efi boot_services self (some sprite_txt)
    (file, size) ← or_fault read.contents
    sprite ← parse_sprite pixel_pool (take size file)
    ok (read.status, sprite)

  -- `if (EntryToBoot != ESCAPE_ENTRY)`, and the return.
  unfoldable pub finish : Files → ℕ → ℕ → Result Outcome
  unfolding boot_entry
  finish f status entry_to_boot =
      let booted = (do
        entry ← load f.config.result entry_to_boot
        b ← boot_entry p entry f.located.partitions f.located.partitions_count
        ok (returns b)) in
      if entry_to_boot == escape_entry then ok (returns (unstarted status)) else booted

  pub play : List KeyPress → Files → List (List Pixel) → ℕ → Sprite → ℕ → Result Outcome
  unfolding maze_game finish
  play keys f textures count sprite status = do
    grid ← or_fault f.maze.grid
    w ←
        maze_game efi boot_services pixel_pool p.allocate_pool p.reallocate_pool f.self p.rand
          (record {
            map = grid.numbers;
            map_width = grid.width;
            map_height = grid.height;
            textures = record { images = textures; count = count };
            boot_entries = f.config.result;
            boot_entries_count = f.config.result_size;
            sprite = sprite.pixels;
          })
          p.screen keys
    let finished = finish f status w.entry_to_boot
    if w.escaped then finished else ok waits

  pub load_and_play : List KeyPress → Files → Result Outcome
  unfolding load_textures halved read_sprite play
  load_and_play keys f = do
    (names, count) ← or_fault f.names.textures
    l ← load_textures halved f.self f.located.status names count
    let played = (do
      (status, sprite) ← read_sprite f.self
      let game = play keys f l.textures count sprite status
      if efi.efi_error status then ok (returns (unstarted status)) else game)
    if l.failed then ok (returns (unstarted l.status)) else played

  unfoldable pub go_on : (Files → Result Outcome) → ℕ ⊎ Files → Result Outcome
  go_on rest (inl status) = ok (returns (unstarted status))
  go_on rest (inr f) = rest f

  unfoldable pub uefi_main : List KeyPress → Result Outcome
  unfolding prepare load_and_play go_on
  uefi_main keys = prepare two_d_config >>= go_on (load_and_play keys)
