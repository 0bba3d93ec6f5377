-- ===== src/BootManager/Main/Drive.antt =====
-- `UefiMain` of BootManager2D, from what the files say to the game and its end.
use uefi_game.Prelude.{
  Result, ◌>>=◌, Returns-else, ℕ, ◌+◌, ◌*◌, ◌/◌, ◌^◌, ◌≤◌, ◌<◌, ◌≡◌, refl, ap, ◌∙◌, ◌≢◌, false,
  some, List, arith, if◌then◌else◌, length, replicate, get_elem?, ok, Returns, Returns-ok,
  Returns-cong, Returns-bind, or_fault,
}
use uefi_game.Pixels.{Pixel, zero_pixel}
use uefi_game.BootManager.Sprite.{Sprite}
use uefi_game.BootManager.Sprite.Painting.{parse_sprite_lem}
use uefi_game.BootManager.Icons.Growth.{Grows}
use uefi_game.BootManager.Icons.Making.{room_lem}
use uefi_game.BootManager.Walk.{KeyPress, cell_side}
use uefi_game.BootManager.Round.{Setting, maze_game}
use uefi_game.BootManager.Round.Ready.{IsReady}
use uefi_game.BootManager.Boot.{Platform, Outcome, waits}
use uefi_game.BootManager.Main.{
  Files, two_d_config, sprite_txt, halved, read_sprite, finish, play, load_and_play, go_on,
  uefi_main,
}
use uefi_game.BootManager.Main.Setup.{
  take-all, Contains, IsInstalled, IsRead, HasTextures, config_of, grid_of, names_of, prepare_lem,
  textures_lem,
}
use uefi_game.BootManager.Main.Finish.{Loads}

rows-columns : (w h : ℕ) → 4 * w * h ≡ 4 * (h * w)
rows-columns w h = grind arith

module _ (p : Platform) (i : IsInstalled p two_d_config) where
  open p use {efi, boot_services}

  -- The file of the sprite: rows of `w` letters, and a cell of pixels.
  pub record HasSprite : Type 0 where
    pub text : List ℕ
    pub w : ℕ
    pub status : ℕ
    pub broken : get_elem? text w ≡ some b'\n'
    pub first : (k : ℕ) → k < w → get_elem? text k ≢ some b'\n'
    pub small : length text < 2 ^ 60
    pub full : cell_side * cell_side ≤ length text / (w + 1) * w
    pub read : Contains p i.self sprite_txt text status
    pub fine : efi.efi_error status ≡ false

  -- What `Game` is called with.
  abbrev pub setting : List (List Pixel) → List Pixel → Setting
  setting textures sprite = record {
    map = (grid_of p i.map).numbers;
    map_width = (grid_of p i.map).width;
    map_height = (grid_of p i.map).height;
    textures = record { images = textures; count = length i.names.lines };
    boot_entries = (config_of p i.entries).result;
    boot_entries_count = (config_of p i.entries).result_size;
    sprite = sprite;
  }

  -- The game that the files describe can be played, with any sprite of a cell.
  pub record IsPlayable : Type 0 where
    pub textures : List (List Pixel)
    pub textured : HasTextures p two_d_config i (halved p) textures
    pub sprite : HasSprite
    pub screen : ℕ × ℕ
    pub shown : p.screen ≡ some screen
    pub room : (n : ℕ) → p.pixel_pool (4 * n) ≡ replicate n zero_pixel
    pub grows : Grows p.allocate_pool p.reallocate_pool
    pub ready :
        (pixels : List Pixel)
        → cell_side * cell_side ≤ length pixels
        → IsReady efi boot_services p.pixel_pool p.allocate_pool p.reallocate_pool i.self p.rand
            room grows
            (setting textures pixels)
    pub loads : Loads p

  module _ (g : IsPlayable) where
    pub sprite_lem :
        Returns
          (λ (r : ℕ × Sprite).
            (r.0 ≡ g.sprite.status) × (cell_side * cell_side ≤ length r.1.pixels))
          (read_sprite p i.self)
    unfolding read_sprite
    sprite_lem =
        let s = g.sprite in
        let pixels =
          parse_sprite_lem p.pixel_pool s.text s.w s.broken s.first s.small
            (room_lem p.pixel_pool g.room _ _ (rows-columns s.w (length s.text / (s.w + 1)))) in
        rw (s.read, take-all s.text, pixels.returns) (Returns-ok (refl, rw pixels.holds.2 s.full))

    -- The sprite that is read.
    abbrev pub pixels : List Pixel
    pixels = sprite_lem.out.1.pixels

    pub pixels_full : cell_side * cell_side ≤ length pixels
    pixels_full = sprite_lem.holds.1

    -- The game and what `UefiMain` does after it.
    abbrev pub game_and_boot : List KeyPress → Files → Result Outcome
    game_and_boot keys f =
        maze_game efi boot_services p.pixel_pool p.allocate_pool p.reallocate_pool i.self p.rand
          (setting g.textures pixels) (some g.screen) keys
        >>= λ w.
            let finished = finish p f g.sprite.status w.entry_to_boot in
            if w.escaped then finished else ok waits

    module _ (Q : Outcome → Type 0) (keys : List KeyPress)
        (plays : (f : Files) → IsRead p two_d_config i f → Returns Q (game_and_boot keys f)) where
      -- The expressions of the call of `Game` have the values of the files.
      play_lem :
          (f : Files)
          → IsRead p two_d_config i f
          → Returns Q
              (play p keys f g.textures (length i.names.lines) sprite_lem.out.1 g.sprite.status)
      unfolding play
      play_lem f r =
          Returns-cong
            (λ j. or_fault (r.grid j) >>= λ grid.
              maze_game efi boot_services p.pixel_pool p.allocate_pool p.reallocate_pool (r.self j)
                p.rand
                (record {
                  map = grid.numbers;
                  map_width = grid.width;
                  map_height = grid.height;
                  textures = record { images = g.textures; count = length i.names.lines };
                  boot_entries = (r.config j).result;
                  boot_entries_count = (r.config j).result_size;
                  sprite = pixels;
                })
                (g.shown j) keys
              >>= λ w.
                  let finished = finish p f g.sprite.status w.entry_to_boot in
                  if w.escaped then finished else ok waits)
            (plays f r)

      sprite_there : Returns (λ (r : ℕ × Sprite). r ≡ sprite_lem.out) (read_sprite p i.self)
      sprite_there = record { out = sprite_lem.out; returns = sprite_lem.returns; holds = refl }

      go_lem : (f : Files) → IsRead p two_d_config i f → Returns Q (load_and_play p keys f)
      unfolding load_and_play
      go_lem f r =
          Returns-bind _
            (record {
              out = (names_of p i.names, length i.names.lines);
              returns = ap or_fault r.names;
              holds = refl;
            })
            (λ listed same.
              Returns-bind _
                (textures_lem p two_d_config i (halved p) g.textures f listed g.textured r same)
                (λ l h. Returns-else l.failed _ h.1 (
                  Returns-bind _ (Returns-cong (ap (read_sprite p) r.self) sprite_there) (λ s k.
                    let status = ap (λ (q : ℕ × Sprite). q.0) k ∙ sprite_lem.holds.0 in
                    Returns-else (efi.efi_error s.0) _ (ap efi.efi_error status ∙ g.sprite.fine) (
                      Returns-cong (λ j. play p keys f (h.0 j) (same j).1 (k j).1 (status j))
                        (play_lem f r))))))

      pub drive_lem : Returns Q (uefi_main p keys)
      unfolding uefi_main go_on
      drive_lem =
          Returns-bind _ (prepare_lem p two_d_config i)
            (λ o h. let (f, e, r) = h in rw e (go_lem f r))
