-- ===== src/BootManager/Icons/Making.antt =====
-- `MakeBootEntryTexture`: the icon shows through the escape's texture.
use uefi_game.Prelude.{
  none, fault, ◌⊎◌, inl, inr, ℕ, ◌+◌, ◌-◌, ◌*◌, ◌/◌, ◌^◌, ◌≤◌, ◌<◌, ◌≡◌, ap, ◌∙◌, some, List, [],
  ◌∷◌, ◌++◌, arith, length, replicate, get_elem?, ok, Returns, Returns-map,
}
use uefi_game.Efi.{Efi}
use uefi_game.Pixels.{Pixel, zero_pixel}
use uefi_game.BootManager.Files.{BootServices}
use uefi_game.BootManager.Bmp.{Image, Bmp, read_bmp}
use uefi_game.BootManager.Bmp.Header.{IsSupported}
use uefi_game.BootManager.Bmp.Rows.{Holds, Shows, Loaded, pixel_at, read_bmp_lem}
use uefi_game.BootManager.Graphics.{cut_in_half, combine_with_transparency}
use uefi_game.BootManager.Graphics.Combine.{over, combine_with_transparency_lem}
use uefi_game.BootManager.Graphics.Halve.{cut_in_half_lem}
use uefi_game.BootManager.Entries.{BootEntry}
use uefi_game.BootManager.Placement.{Textures}
use uefi_game.Int32.{extend_lem, half_lem}
use uefi_game.BootManager.Icons.{add_element, make_boot_entry_texture}
use uefi_game.BootManager.Icons.Growth.{Grows, append_lem}

-- The texture for an icon whose picture stands at `start` in `bytes`, on the image `behind`.
pub record Textured (rows cols start : ℕ) (bytes : List ℕ) (behind texture : List Pixel)
    : Type 0 where
  pub size : length texture ≡ cols * rows
  pub pixel :
      (y x : ℕ) (p : Pixel)
      → y < rows
      → x < cols
      → get_elem? behind (y * cols + x) ≡ some p
      → get_elem? texture (y * cols + x)
        ≡ some (over p (pixel_at bytes (start + 4 * ((2 * rows - 1 - 2 * y) * (2 * cols) + 2 * x))))

twice-half : (n : ℕ) → 2 * n / 2 ≡ n
twice-half n = omega arith

module _ (zero_pool : ℕ → List Pixel)
    (room : (n : ℕ) → zero_pool (4 * n) ≡ replicate n zero_pixel) where
  pub room_lem : (m n : ℕ) → m ≡ 4 * n → zero_pool m ≡ replicate n zero_pixel
  room_lem m n e = ap zero_pool e ∙ room n

  texture_lem :
      (rows cols start : ℕ) (bytes : List ℕ) (behind : List Pixel) (picture : Image)
      → Shows bytes (2 * cols) (2 * rows) start picture
      → 2 * rows * (2 * cols) < 2 ^ 31
      → rows * cols ≤ length behind
      → Returns
          (λ (small : List Pixel).
            Returns
              (Textured rows cols start bytes behind)
              (combine_with_transparency zero_pool behind small cols rows))
          (cut_in_half zero_pool picture.pixels (2 * cols) (2 * rows))
  texture_lem rows cols start bytes behind picture shows area full =
      let size = shows.size in
      let turn : rows * cols ≡ cols * rows = grind arith in
      let cut =
        cut_in_half_lem zero_pool picture.pixels rows cols (omega arith) (omega arith)
          (room_lem (rows * cols * 4) (rows * cols) (omega arith)) in
      Returns-map cut (λ small h.
        Returns-map
          (combine_with_transparency_lem zero_pool behind small cols rows (omega arith)
            (omega arith) (omega (arith, h.0))
            (room_lem (4 * cols * rows) (cols * rows) (omega arith)))
          (λ out g. record {
            size = g.0;
            pixel = λ y x p hy hx at.
                g.1 y x p _ hy hx at
                  (h.1 y x _ hy hx (shows.pixel (2 * y) (2 * x) (omega arith) (omega arith)));
          }))

module _ (efi : Efi) (bs : BootServices) (zero_pool : ℕ → List Pixel) (pool : ℕ → List (List Pixel))
    (realloc : ℕ → ℕ → List (List Pixel) → List (List Pixel)) (self : ℕ) where
  -- The icon of an entry is a picture of twice `rows` by twice `cols` pixels that `ReadBMP` accepts.
  pub record IsIcon (entry : BootEntry) (rows cols : ℕ) : Type 0 where
    pub name : List ℕ
    pub bytes : List ℕ
    pub start : ℕ
    pub named : entry.icon ≡ some name
    pub loaded : Loaded efi bs zero_pool self name bytes
    pub supported : IsSupported bytes
    pub holds : Holds bytes (2 * cols) (2 * rows) start

  -- The calls one after the other.
  calls_lem :
      (rows cols : ℕ) (entry : BootEntry) (base : ℕ) (textures : Textures (List Pixel)) (bmp : Bmp)
      (picture : Image) (behind small texture : List Pixel)
      → 2 * cols < 2 ^ 31
      → 2 * rows < 2 ^ 31
      → read_bmp efi bs zero_pool self entry.icon ≡ ok bmp
      → bmp.image ≡ some picture
      → picture.width ≡ 2 * cols
      → picture.height ≡ 2 * rows
      → cut_in_half zero_pool picture.pixels (2 * cols) (2 * rows) ≡ ok small
      → get_elem? textures.images base ≡ some behind
      → combine_with_transparency zero_pool behind small cols rows ≡ ok texture
      → make_boot_entry_texture efi bs zero_pool pool realloc self entry base textures
        ≡ add_element pool realloc textures.images textures.count texture
  unfolding make_boot_entry_texture
  calls_lem rows cols entry base textures bmp picture behind small texture narrow low r stored wide
        high cut at combined =
      rw (
        r,
        stored,
        wide,
        high,
        extend_lem (2 * cols) narrow,
        extend_lem (2 * rows) low,
        cut,
        at,
        half_lem (2 * cols) narrow,
        half_lem (2 * rows) low,
        twice-half cols,
        twice-half rows,
        combined,
      )

  -- With a pool that has room the texture of an entry with an icon is appended without a fault: it
  -- shows the image of the escape where that is opaque, and elsewhere every second pixel of every
  -- second row of the icon.
  pub make_boot_entry_texture_lem :
      (rows cols : ℕ) (entry : BootEntry) (i : IsIcon entry rows cols) (base : ℕ)
      (behind : List Pixel) (textures : Textures (List Pixel))
      → ((n : ℕ) → zero_pool (4 * n) ≡ replicate n zero_pixel)
      → Grows pool realloc
      → get_elem? textures.images base ≡ some behind
      → rows * cols ≤ length behind
      → textures.count ≡ length textures.images
      → length textures.images < 2 ^ 60
      → (texture : List Pixel) × Textured rows cols i.start i.bytes behind texture
        × (make_boot_entry_texture efi bs zero_pool pool realloc self entry base textures
            ≡ ok (record { images = textures.images ++ texture ∷ []; count = textures.count + 1 }))
  make_boot_entry_texture_lem rows cols entry i base behind textures room g at full count small =
      let b =
        read_bmp_lem efi bs zero_pool self i.name i.bytes (2 * cols) (2 * rows) i.start i.loaded
          i.supported i.holds
          (room_lem zero_pool room (2 * cols * (2 * rows) * 4) (2 * rows * (2 * cols))
            (grind arith)) in
      let (picture, stored, shows) = b.holds.1 in
      let bound : 2 * rows * (2 * cols) < 2 ^ 31 = omega (arith, i.holds.small) in
      let cut =
        texture_lem zero_pool room rows cols i.start i.bytes behind picture shows bound full in
      let combined = cut.holds in
      let called =
        calls_lem rows cols entry base textures b.out picture behind cut.out combined.out
          i.holds.narrow i.holds.low (ap (read_bmp efi bs zero_pool self) i.named ∙ b.returns)
          stored shows.width shows.height cut.returns at combined.returns in
      (
        combined.out,
        combined.holds,
        called ∙ append_lem pool realloc textures.images textures.count combined.out g count small,
      )

  -- An entry with no icon, or with one that `ReadBMP` does not accept, makes `MakeBootEntryTexture` use
  -- a picture that nothing has stored.
  pub make_boot_entry_texture_fault :
      (entry : BootEntry) (base : ℕ) (textures : Textures (List Pixel))
      → (entry.icon ≡ none)
        ⊎ ((bmp : Bmp) × (read_bmp efi bs zero_pool self entry.icon ≡ ok bmp) × (bmp.image ≡ none))
      → make_boot_entry_texture efi bs zero_pool pool realloc self entry base textures ≡ fault
  unfolding make_boot_entry_texture
  make_boot_entry_texture_fault entry base textures (inl absent) = rw absent
  make_boot_entry_texture_fault entry base textures (inr (bmp, r, missing)) = rw (r, missing)
