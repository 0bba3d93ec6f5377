-- ===== src/BootManager3D/Icons.antt =====
-- Application/BootManager3D/src/DemoGame.c, `MakeBootEntryTexture`: here an icon has the size of a
-- texture. The parameters are those of BootManager/Icons.antt.
pub mod Making
use uefi_game.Prelude.{ℕ, List, Result, ◌>>=◌, or_fault, load}
use uefi_game.Efi.{Efi}
use uefi_game.Pixels.{Pixel}
use uefi_game.Int32.{extend}
use uefi_game.BootManager.Files.{BootServices}
use uefi_game.BootManager.Bmp.{read_bmp}
use uefi_game.BootManager.Graphics.{combine_with_transparency}
use uefi_game.BootManager.Entries.{BootEntry}
use uefi_game.BootManager.Placement.{Textures}
use uefi_game.BootManager.Icons.{add_element}

module _ (efi : Efi) (bs : BootServices) (zero_pool : ℕ → List Pixel) (pool : ℕ → List (List Pixel))
    (realloc : ℕ → ℕ → List (List Pixel) → List (List Pixel)) (self : ℕ) where
  -- The status of `ReadBMP` is only reported: the picture is used whether it was stored or not.
  unfoldable pub make_boot_entry_texture :
      BootEntry → ℕ → Textures (List Pixel) → Result (Textures (List Pixel))
  unfolding read_bmp combine_with_transparency add_element extend
  make_boot_entry_texture entry base textures = do
    bmp ← read_bmp efi bs zero_pool self entry.icon
    image ← or_fault bmp.image
    behind ← load textures.images base
    texture ←
        combine_with_transparency zero_pool behind image.pixels (extend image.width)
          (extend image.height)
    add_element pool realloc textures.images textures.count texture
