-- ===== src/BootManager3D/Icons/Making.antt =====
-- `MakeBootEntryTexture` of BootManager3D: the whole icon shows through the escape's texture.
use uefi_game.Prelude.{
  ℕ, ◌+◌, ◌-◌, ◌*◌, ◌^◌, ◌≤◌, ◌<◌, ◌≡◌, ap, ◌∙◌, some, List, [], ◌∷◌, ◌++◌, arith, length,
  replicate, get_elem?, ok,
}
use uefi_game.Efi.{Efi}
use uefi_game.Pixels.{Pixel, zero_pixel}
use uefi_game.Int32.{extend_lem}
use uefi_game.BootManager.Files.{BootServices}
use uefi_game.BootManager.Bmp.{Image, Bmp, read_bmp}
use uefi_game.BootManager.Bmp.Header.{IsSupported}
use uefi_game.BootManager.Bmp.Rows.{Holds, Loaded, pixel_at, read_bmp_lem}
use uefi_game.BootManager.Graphics.{combine_with_transparency}
use uefi_game.BootManager.Graphics.Combine.{over, combine_with_transparency_lem}
use uefi_game.BootManager.Entries.{BootEntry}
use uefi_game.BootManager.Placement.{Textures}
use uefi_game.BootManager.Icons.{add_element}
use uefi_game.BootManager.Icons.Growth.{Grows, append_lem}
use uefi_game.BootManager.Icons.Making.{room_lem}
use uefi_game.BootManager3D.Icons.{make_boot_entry_texture}

-- The texture for an icon whose picture stands at `start` in `bytes`, on the image `behind`.
pub record Covers (rows cols start : ℕ) (bytes : List ℕ) (behind texture : List Pixel)
    : Type 0 where
  pub size : length texture ≡ cols * rows
  pub pixel :
      (y x : ℕ) (p : Pixel)
      → y < rows
      → x < cols
      → get_elem? behind (y * cols + x) ≡ some p
      → get_elem? texture (y * cols + x)
        ≡ some (over p (pixel_at bytes (start + 4 * ((rows - 1 - y) * cols + x))))

module _ (efi : Efi) (bs : BootServices) (zero_pool : ℕ → List Pixel) (pool : ℕ → List (List Pixel))
    (realloc : ℕ → ℕ → List (List Pixel) → List (List Pixel)) (self : ℕ) where
  -- The icon of an entry is a picture of `rows` by `cols` pixels that `ReadBMP` accepts.
  pub record HasIcon (entry : BootEntry) (rows cols : ℕ) : Type 0 where
    pub name : List ℕ
    pub bytes : List ℕ
    pub start : ℕ
    pub named : entry.icon ≡ some name
    pub loaded : Loaded efi bs zero_pool self name bytes
    pub supported : IsSupported bytes
    pub holds : Holds bytes cols rows start

  calls_lem :
      (rows cols : ℕ) (entry : BootEntry) (base : ℕ) (textures : Textures (List Pixel)) (bmp : Bmp)
      (picture : Image) (behind texture : List Pixel)
      → cols < 2 ^ 31
      → rows < 2 ^ 31
      → read_bmp efi bs zero_pool self entry.icon ≡ ok bmp
      → bmp.image ≡ some picture
      → picture.width ≡ cols
      → picture.height ≡ rows
      → get_elem? textures.images base ≡ some behind
      → combine_with_transparency zero_pool behind picture.pixels cols rows ≡ ok texture
      → make_boot_entry_texture efi bs zero_pool pool realloc self entry base textures
        ≡ add_element pool realloc textures.images textures.count texture
  unfolding make_boot_entry_texture
  calls_lem rows cols entry base textures bmp picture behind texture narrow low r stored wide high
        at combined =
      rw (r, stored, wide, high, extend_lem cols narrow, extend_lem rows low, at, combined)

  -- With a pool that has room the texture of an entry with an icon is appended without a fault: it
  -- shows the image of the escape where that is opaque, and elsewhere the icon.
  pub make_boot_entry_texture_lem :
      (rows cols : ℕ) (entry : BootEntry) (i : HasIcon entry rows cols) (base : ℕ)
      (behind : List Pixel) (textures : Textures (List Pixel))
      → ((n : ℕ) → zero_pool (4 * n) ≡ replicate n zero_pixel)
      → Grows pool realloc
      → get_elem? textures.images base ≡ some behind
      → rows * cols ≤ length behind
      → textures.count ≡ length textures.images
      → length textures.images < 2 ^ 60
      → (texture : List Pixel) × Covers rows cols i.start i.bytes behind texture
        × (make_boot_entry_texture efi bs zero_pool pool realloc self entry base textures
            ≡ ok (record { images = textures.images ++ texture ∷ []; count = textures.count + 1 }))
  make_boot_entry_texture_lem rows cols entry i base behind textures room g at full count small =
      let b =
        read_bmp_lem efi bs zero_pool self i.name i.bytes cols rows i.start i.loaded i.supported
          i.holds (room_lem zero_pool room (cols * rows * 4) (rows * cols) (grind arith)) in
      let (picture, stored, shows) = b.holds.1 in
      let turn : cols * rows ≡ rows * cols = grind arith in
      let area = i.holds.small in
      let size = shows.size in
      let combined =
        combine_with_transparency_lem zero_pool behind picture.pixels cols rows (omega arith)
          (omega arith) (omega arith)
          (room_lem zero_pool room (4 * cols * rows) (cols * rows) (omega arith)) in
      let called =
        calls_lem rows cols entry base textures b.out picture behind combined.out i.holds.narrow
          i.holds.low (ap (read_bmp efi bs zero_pool self) i.named ∙ b.returns) stored shows.width
          shows.height at combined.returns in
      (
        combined.out,
        record {
          size = combined.holds.0;
          pixel = λ y x p hy hx e. combined.holds.1 y x p _ hy hx e (shows.pixel y x hy hx);
        },
        called ∙ append_lem pool realloc textures.images textures.count combined.out g count small,
      )
