-- ===== src/BootManager3D/Game/Whole.antt =====
-- `Game` of BootManager3D as a whole: the placement of the boot entries, and the walk through the map.
use uefi_game.Prelude.{
  ℕ, ◌+◌, ◌*◌, ◌^◌, ◌≤◌, ◌<◌, ◌≡◌, refl, ◌⊎◌, true, some, List, arith, length, replicate, get_elem?,
  Result, Returns, Returns-ok,
}
use uefi_game.Efi.{Efi}
use uefi_game.Doubles.{Doubles}
use uefi_game.Pixels.{Pixel, zero_pixel}
use uefi_game.BootManager.Files.{BootServices}
use uefi_game.BootManager.Entries.{BootEntry}
use uefi_game.BootManager.Placement.{Textures, Placing, escapes, is_escape}
use uefi_game.BootManager.Placement.Count.{escapes_in}
use uefi_game.BootManager.Placement.Places.{Placed}
use uefi_game.BootManager.Icons.Growth.{Grows}
use uefi_game.BootManager.Icons.Arrays.{AreTextures, AreTextures-append, texture_at}
use uefi_game.BootManager.Walk.{escape_entry}
use uefi_game.BootManager3D.View.{tex_width, tex_height, View, Level}
use uefi_game.BootManager3D.Icons.{make_boot_entry_texture}
use uefi_game.BootManager3D.Icons.Making.{HasIcon, make_boot_entry_texture_lem}
use uefi_game.BootManager3D.Rays.Ends.{IsWalled, Inner}
use uefi_game.BootManager3D.Game.{Tour, Setting, first_view}
use uefi_game.BootManager3D.Game.Moves.{IsSteady}
use uefi_game.BootManager3D.Game.Placed.{
  tex_area, IsGuardedBefore, after, after-IsWalled, after-IsGuarded, after-IsTextured,
  after-HasImages,
}
use uefi_game.BootManager3D.Game.Session.{Playing}

module _ (d : Doubles) (efi : Efi) (bs : BootServices) (zero_pool : ℕ → List Pixel)
    (pool : ℕ → List (List Pixel)) (realloc : ℕ → ℕ → List (List Pixel) → List (List Pixel))
    (self : ℕ) (rand : ℕ → ℕ) (fuel : ℕ)
    (room : (n : ℕ) → zero_pool (4 * n) ≡ replicate n zero_pixel) (grows : Grows pool realloc)
    (s : Setting d) where
  open s use {
    map,
    map_width as w,
    map_height as h,
    boot_entries as entries,
    boot_entries_count as n,
    textures.{images, count as start},
  }

  -- The map that the configuration file gives.
  abbrev pub before : Level
  before = record { map = map; map_width = w; bootable_start = start }

  -- A map of texture numbers with walls all around and no corner between cells that may open, with
  -- twelve escapes and the start inside; entries with icons of a texture's size, twelve at most.
  pub record IsReady (Fair : View d → Type 0) : Type 0 where
    pub walled : IsWalled before h
    pub guarded : IsGuardedBefore before h walled
    pub begins :
        Inner before h walled (d.to_int (first_view d).pos_y) (d.to_int (first_view d).pos_x)
    pub textured : AreTextures tex_area start s.textures
    pub pictures : 1 < start
    pub few_textures : start + escapes < 2 ^ 31
    pub fresh : (k c : ℕ) → get_elem? map k ≡ some c → c < start
    pub twelve : escapes_in start w map h w ≡ escapes
    pub few : n ≤ escapes
    pub counted : n ≤ length entries
    pub icons :
        (j : ℕ) (e : BootEntry)
        → get_elem? entries j ≡ some e
        → HasIcon efi bs zero_pool pool realloc self e tex_height tex_width
    pub enough : w + h ≤ fuel
    pub steady :
        (level : Level) (walled : IsWalled level h)
        → level.map_width ≡ w
        → IsSteady level h walled d fuel Fair

  module _ (Fair : View d → Type 0) (ready : IsReady Fair) where
    abbrev pub make : BootEntry → ℕ → Textures (List Pixel) → Result (Textures (List Pixel))
    make = make_boot_entry_texture efi bs zero_pool pool realloc self

    pub makes :
        (j : ℕ) (e : BootEntry) (c : ℕ) (t : Textures (List Pixel))
        → get_elem? entries j ≡ some e
        → is_escape start c ≡ true
        → AreTextures tex_area start t
        → t.count < 2 ^ 60
        → Returns
            (λ (t' : Textures (List Pixel)).
              AreTextures tex_area start t' × (t'.count ≡ t.count + 1))
            (make e c t)
    unfolding is_escape
    makes j e c t at escape a small =
        let low : c < t.count = ground (arith, a.start_le, a.count) in
        let (behind, there, full) = texture_at tex_area start t c a low in
        let (texture, covers, made) =
          make_boot_entry_texture_lem efi bs zero_pool pool realloc self tex_height tex_width e
            (ready.icons j e at) c behind t room grows there full a.count
            (omega (arith, a.count)) in
        rw made (
          Returns-ok
            (AreTextures-append tex_area start t texture a (omega (arith, covers.size)), refl))

    abbrev pub Places : Placing (List Pixel) → Type 0
    Places p = Placed make rand w h entries (AreTextures tex_area start) start makes map n p

    module _ (p : Placing (List Pixel)) (a : Places p) where
      pub few_left : start + n < 2 ^ 31
      few_left = let f = ready.few in let t = ready.few_textures in omega arith

      abbrev pub level : Level
      level = after make rand before h entries makes n p a

      pub level-IsWalled : IsWalled level h
      level-IsWalled =
          after-IsWalled make rand before h entries makes n p a ready.walled ready.pictures few_left

      -- The game on the map with the boot entries.
      abbrev pub Plays : Tour d → Type 0
      Plays =
          Playing d level h level-IsWalled p.textures.images
            (after-IsTextured make rand before h entries makes n p a ready.walled ready.pictures
              few_left)
            (after-HasImages make rand before h entries makes n p a ready.walled ready.pictures
              few_left)
            fuel Fair (ready.steady level level-IsWalled refl)
            (after-IsGuarded make rand before h entries makes n p a ready.walled ready.pictures
              few_left ready.guarded)
            ready.enough

    -- How a game ends: on a placed map, and with an entry of the table if any.
    pub record Toured (t : Tour d) : Type 0 where
      pub placing : Placing (List Pixel)
      pub placed : Places placing
      pub plays : Plays placing placed t
      pub in_table : (t.entry_to_boot ≡ escape_entry) ⊎ (t.entry_to_boot < n)
