-- ===== src/BootManager/Round.antt =====
-- Application/BootManager2D/src/DemoGame.c, `Game` as a whole: the placement of the boot entries, the
-- margins, the first picture and the walk. `screen` is the resolution of the graphics protocol, and
-- `none` if `LocateProtocol` finds none; the filling of the screen at the end is left out.
pub mod Ready
pub mod Entry
use uefi_game.Prelude.{◌>>=◌, ℕ, ◌+◌, ◌-◌, ◌*◌, ◌/◌, ◌^◌, Option, List, map, wrap, Result, or_fault}
use uefi_game.Efi.{Efi}
use uefi_game.Pixels.{Pixel}
use uefi_game.BootManager.Files.{BootServices}
use uefi_game.BootManager.Entries.{BootEntry}
use uefi_game.BootManager.Icons.{make_boot_entry_texture}
use uefi_game.BootManager.Placement.{Textures, place_boot_entries}
use uefi_game.BootManager.Walk.{KeyPress, Walk, Maze, cell_side, walk_maze}

-- `(screenWidth - cell_side * MapWidth) / 2`, on `UINTN`.
pub margin : ℕ → ℕ → ℕ
unfolding wrap cell_side
margin screen cells = wrap (screen + 2 ^ 64 - wrap (cell_side * cells)) / 2

-- What the parameters of `Game` point to.
pub record Setting : Type 0 where
  pub map : List ℕ
  pub map_width : ℕ
  pub map_height : ℕ
  pub textures : Textures (List Pixel)
  pub boot_entries : List BootEntry
  pub boot_entries_count : ℕ
  pub sprite : List Pixel

module _ (efi : Efi) (bs : BootServices) (zero_pool : ℕ → List Pixel) (pool : ℕ → List (List Pixel))
    (realloc : ℕ → ℕ → List (List Pixel) → List (List Pixel)) (self : ℕ) (rand : ℕ → ℕ) where
  unfoldable pub maze_game : Setting → Option (ℕ × ℕ) → List KeyPress → Result Walk
  unfolding margin make_boot_entry_texture place_boot_entries walk_maze
  maze_game s screen keys = do
    placed ←
        place_boot_entries (make_boot_entry_texture efi bs zero_pool pool realloc self) rand
          s.map_width s.map_height s.boot_entries s.boot_entries_count s.map s.textures
    resolution ← or_fault screen
    walk_maze
        (record {
          map = placed.map;
          map_width = s.map_width;
          map_height = s.map_height;
          bootable_start = s.textures.count;
        })
        zero_pool placed.textures.images s.sprite (margin resolution.0 s.map_width)
        (margin resolution.1 s.map_height) keys
