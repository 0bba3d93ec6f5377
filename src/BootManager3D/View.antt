-- ===== src/BootManager3D/View.antt =====
-- Application/BootManager3D/src/DemoGame.c: its constants, where the player stands and looks, and the
-- reading of the map.
use uefi_game.Prelude.{ℕ, ◌+◌, ◌*◌, ◌/◌, List, wrap, Result, load}
use uefi_game.Doubles.{Doubles}
use uefi_game.Int32.{extend}
use uefi_game.Pixels.{Pixel}

abbrev pub image_width : ℕ
image_width = 960

abbrev pub image_height : ℕ
image_height = 640

abbrev pub tex_width : ℕ
tex_width = 64

abbrev pub tex_height : ℕ
tex_height = 64

pub record View (d : Doubles) : Type 0 where
  pub pos_x : d.Double
  pub pos_y : d.Double
  pub dir_x : d.Double
  pub dir_y : d.Double
  pub plane_x : d.Double
  pub plane_y : d.Double

-- The map, as `Game` has it after `PlaceBootEntries`.
pub record Level : Type 0 where
  pub map : List ℕ
  pub map_width : ℕ
  pub bootable_start : ℕ

-- `Map[y * MapWidth + x]` for two `int`s.
unfoldable pub cell_at : Level → ℕ → ℕ → Result ℕ
unfolding wrap extend
cell_at level y x = load level.map (wrap (extend y * level.map_width + extend x))

-- `color.Blue /= 2`, and so on.
abbrev pub darken : Pixel → Pixel
darken p = record p { blue = p.blue / 2; green = p.green / 2; red = p.red / 2 }
