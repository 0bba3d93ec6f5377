-- ===== src/BootManager/Round/Ready.antt =====
-- `Game`: the maze that it plays on, after the placement of the boot entries.
use uefi_game.Prelude.{
  ℕ, ◌+◌, ◌*◌, ◌^◌, ◌≤◌, ◌<◌, ◌≡◌, refl, ap, ◌∙◌, true, some, List, arith, length, replicate,
  get_elem?, get_elem?-of_lt, Returns, Returns-ok,
}
use uefi_game.Efi.{Efi}
use uefi_game.Pixels.{Pixel, zero_pixel}
use uefi_game.BootManager.Files.{BootServices}
use uefi_game.BootManager.Entries.{BootEntry}
use uefi_game.BootManager.Icons.{make_boot_entry_texture}
use uefi_game.BootManager.Icons.Growth.{Grows}
use uefi_game.BootManager.Icons.Arrays.{AreTextures, AreTextures-append}
use uefi_game.BootManager.Icons.Making.{IsIcon, make_boot_entry_texture_lem}
use uefi_game.BootManager.Placement.{Textures, Placing, escapes, is_escape, place_boot_entries}
use uefi_game.BootManager.Placement.Count.{escapes_in}
use uefi_game.BootManager.Placement.Places.{Placed, place_boot_entries_lem}
use uefi_game.BootManager.Walk.{Maze, cell_side}
use uefi_game.BootManager.Walk.Moves.{IsValid}
use uefi_game.BootManager.Walk.Paths.{Drawable}
use uefi_game.BootManager.Round.{Setting, margin}

-- The pixels of a cell.
abbrev cell_area : ℕ
cell_area = cell_side * cell_side

module _ (efi : Efi) (bs : BootServices) (zero_pool : ℕ → List Pixel) (pool : ℕ → List (List Pixel))
    (realloc : ℕ → ℕ → List (List Pixel) → List (List Pixel)) (self : ℕ) (rand : ℕ → ℕ)
    (room : (n : ℕ) → zero_pool (4 * n) ≡ replicate n zero_pixel) (grows : Grows pool realloc)
    (s : Setting) where
  open s use {
    map,
    map_width as w,
    map_height as h,
    boot_entries as entries,
    boot_entries_count as n,
    textures.{images, count as start},
  }

  -- A map of the right size, of texture numbers, with twelve escapes and the start inside; entries
  -- with icons of 64 by 64 pixels, twelve at most.
  pub record IsReady : Type 0 where
    pub size : length map ≡ h * w
    pub small : h * w < 2 ^ 64
    pub wide : w < 2 ^ 64
    pub tall : h < 2 ^ 64
    pub begins : (1 < w) × (17 < h)
    pub textured : AreTextures cell_area start s.textures
    pub positive : 0 < start
    pub few_textures : start < 2 ^ 59
    pub fresh : (k c : ℕ) → get_elem? map k ≡ some c → c < start
    pub twelve : escapes_in start w map h w ≡ escapes
    pub few : n ≤ escapes
    pub counted : n ≤ length entries
    pub icons :
        (j : ℕ) (e : BootEntry)
        → get_elem? entries j ≡ some e
        → IsIcon efi bs zero_pool pool realloc self e cell_side cell_side
    pub sprite : cell_side * cell_side ≤ length s.sprite

  module _ (ready : IsReady) where
    pub makes :
        (j : ℕ) (e : BootEntry) (c : ℕ) (t : Textures (List Pixel))
        → get_elem? entries j ≡ some e
        → is_escape start c ≡ true
        → AreTextures cell_area start t
        → t.count < 2 ^ 60
        → Returns
            (λ (t' : Textures (List Pixel)).
              AreTextures cell_area start t' × (t'.count ≡ t.count + 1))
            (make_boot_entry_texture efi bs zero_pool pool realloc self e c t)
    unfolding is_escape
    makes j e c t at escape a small =
        let low : c < length t.images = ground (arith, a.start_le) in
        let (behind, there) = get_elem?-of_lt t.images c low in
        let (texture, shows, made) =
          make_boot_entry_texture_lem efi bs zero_pool pool realloc self cell_side cell_side e
            (ready.icons j e at) c behind t room grows there (a.full c behind there) a.count
            (omega (arith, a.count)) in
        rw made (
          Returns-ok
            (AreTextures-append cell_area start t texture a (omega (arith, shows.size)), refl))

    abbrev pub after : Placing (List Pixel) → Maze
    after p = record { map = p.map; map_width = w; map_height = h; bootable_start = start }

    pub after-IsValid : (p : Placing (List Pixel)) → length p.map ≡ h * w → IsValid (after p)
    after-IsValid p e = record {
      size = e;
      small = ready.small;
      wide = ready.wide;
      tall = ready.tall;
      textured = ready.positive;
    }

    -- A texture for every cell of the placed map.
    after-Drawable :
        (p : Placing (List Pixel)) (wm hm : ℕ)
        → AreTextures cell_area start p.textures
        → ((k c : ℕ) → get_elem? p.map k ≡ some c → c < length p.textures.images)
        → Drawable (after p) zero_pool p.textures.images s.sprite wm hm
    after-Drawable p wm hm a below = record {
      textured = λ k v e.
          let (image, there) = get_elem?-of_lt p.textures.images v (below k v e) in
          (image, there, a.full v image there);
      sprite_size = ready.sprite;
      room =
          ap zero_pool {x = 4 * cell_side * cell_side} {y = 4 * (cell_side * cell_side)}
            (omega arith)
          ∙ room (cell_side * cell_side);
    }

    -- The placement of the entries.
    abbrev pub Places : Placing (List Pixel) → Type 0
    Places =
        Placed (make_boot_entry_texture efi bs zero_pool pool realloc self) rand w h entries
          (AreTextures cell_area start) start makes map n

    pub place_lem : Returns Places (
        place_boot_entries
          (make_boot_entry_texture efi bs zero_pool pool realloc self)
          rand
          w
          h
          entries
          n
          map
          s.textures)
    place_lem =
        place_boot_entries_lem (make_boot_entry_texture efi bs zero_pool pool realloc self) rand w h
          entries (AreTextures cell_area start) start makes map n s.textures ready.textured refl
          ready.size ready.small ready.few_textures ready.fresh ready.twelve ready.few ready.counted

    pub Places-Drawable :
        (p : Placing (List Pixel)) (screen : ℕ × ℕ)
        → Places p
        → Drawable
            (after p)
            zero_pool
            p.textures.images
            s.sprite
            (margin screen.0 w)
            (margin screen.1 h)
    Places-Drawable p screen a =
        after-Drawable p (margin screen.0 w) (margin screen.1 h) a.good
          (λ k c e. omega (arith, a.below k c e, a.good.count, a.count))
