-- ===== src/BootManager/Icons.antt =====
-- Application/BootManager2D/src/Common.c, `AddElement`, and Application/BootManager2D/src/DemoGame.c,
-- `MakeBootEntryTexture`. `pool` and `realloc` stand for `AllocatePool` and `ReallocatePool` on
-- pointers of eight bytes: the first takes a number of bytes, the second the old and the new number
-- of bytes and the old buffer. `self` is `SelfFSHandle`.
pub mod Growth
pub mod Arrays
pub mod Making
use uefi_game.Prelude.{
  ◌>>=◌, ℕ, ◌+◌, ◌*◌, List, ◌==◌, if◌then◌else◌, wrap, Result, ok, or_fault, load, store,
}
use uefi_game.Efi.{Efi}
use uefi_game.Pixels.{Pixel}
use uefi_game.BootManager.Files.{BootServices}
use uefi_game.Int32.{extend, half}
use uefi_game.BootManager.Bmp.{read_bmp}
use uefi_game.BootManager.Graphics.{cut_in_half, combine_with_transparency}
use uefi_game.BootManager.Entries.{BootEntry}
use uefi_game.BootManager.Placement.{Textures}

module _ {I : Type 0} (pool : ℕ → List I) (realloc : ℕ → ℕ → List I → List I) where
  unfoldable pub add_element : List I → ℕ → I → Result (Textures I)
  unfolding wrap
  add_element list list_size element = do
    let fresh = pool (wrap (8 * (list_size + 1)))
    let grown = realloc (wrap (8 * list_size)) (wrap (8 * (list_size + 1))) list
    images ← store (if list_size == 0 then fresh else grown) list_size element
    ok (record { images = images; count = wrap (list_size + 1) })

module _ (efi : Efi) (bs : BootServices) (zero_pool : ℕ → List Pixel) (pool : ℕ → List (List Pixel))
    (realloc : ℕ → ℕ → List (List Pixel) → List (List Pixel)) (self : ℕ) where
  -- The status of `ReadBMP` is only reported: the picture is used whether it was stored or not.
  unfoldable pub make_boot_entry_texture :
      BootEntry → ℕ → Textures (List Pixel) → Result (Textures (List Pixel))
  unfolding read_bmp cut_in_half combine_with_transparency add_element extend half
  make_boot_entry_texture entry base textures = do
    bmp ← read_bmp efi bs zero_pool self entry.icon
    image ← or_fault bmp.image
    small ← cut_in_half zero_pool image.pixels (extend image.width) (extend image.height)
    behind ← load textures.images base
    texture ←
        combine_with_transparency zero_pool behind small (half image.width) (half image.height)
    add_element pool realloc textures.images textures.count texture
