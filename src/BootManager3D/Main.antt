-- ===== src/BootManager3D/Main.antt =====
-- Application/BootManager3D/src/Main.c, `UefiMain`. It differs from that of BootManager2D in the
-- configuration file, in the textures, which keep their size, and in the game; there is no sprite.
pub mod Whole
use uefi_game.Prelude.{ℕ, List, [], ◌∷◌, if◌then◌else◌, Result, ok, ◌>>=◌, or_fault}
use uefi_game.Doubles.{Doubles}
use uefi_game.Pixels.{Pixel}
use uefi_game.Console.{ScanCode}
use uefi_game.BootManager.Bmp.{Image}
use uefi_game.BootManager.Boot.{Platform, Outcome, waits, returns, unstarted}
use uefi_game.BootManager.Main.{Files, prepare, load_textures, finish, go_on}
use uefi_game.BootManager3D.Game.{tour_game}

-- `L"3DConfig.txt"`
abbrev pub three_d_config : List ℕ
three_d_config =
    b'3' ∷ b'D' ∷ b'C' ∷ b'o' ∷ b'n' ∷ b'f' ∷ b'i' ∷ b'g' ∷ b'.' ∷ b't' ∷ b'x' ∷ b't' ∷ []

-- `ReadBMP` stores the pixels of a texture themselves.
unfoldable pub whole : Image → Result (List Pixel)
whole image = ok image.pixels

module _ (p : Platform) (d : Doubles) (fuel : ℕ) where
  pub play : List ScanCode → Files → List (List Pixel) → ℕ → ℕ → Result Outcome
  unfolding tour_game finish
  play keys f textures count status = do
    grid ← or_fault f.maze.grid
    t ←
        tour_game d p.efi p.boot_services p.pixel_pool p.allocate_pool p.reallocate_pool f.self
          p.rand fuel
          (record {
            map = grid.numbers;
            map_width = grid.width;
            map_height = grid.height;
            textures = record { images = textures; count = count };
            boot_entries = f.config.result;
            boot_entries_count = f.config.result_size;
          })
          p.screen keys
    let finished = finish p f status t.entry_to_boot
    if t.ready_to_boot then finished else ok waits

  pub load_and_play : List ScanCode → Files → Result Outcome
  unfolding load_textures whole play
  load_and_play keys f = do
    (names, count) ← or_fault f.names.textures
    l ← load_textures p whole f.self f.located.status names count
    let played = play keys f l.textures count l.status
    if l.failed then ok (returns (unstarted l.status)) else played

  unfoldable pub uefi_main : List ScanCode → Result Outcome
  unfolding prepare load_and_play
  uefi_main keys = prepare p three_d_config >>= go_on p (load_and_play keys)
