-- ===== src/BootManager/Main/Whole.antt =====
-- `UefiMain` of BootManager2D as a whole.
use uefi_game.Prelude.{
  ℕ, ◌+◌, ◌<◌, ◌≡◌, refl, ◌⊎◌, inl, inr, true, false, List, arith, if◌then◌else◌, Bool-cases,
  length, ok, Returns, Returns-ok, Returns-bind, Returns-map,
}
use uefi_game.Pixels.{Pixel}
use uefi_game.BootManager.Placement.{Placing}
use uefi_game.BootManager.Walk.{KeyPress, Walk, Maze, escape_entry}
use uefi_game.BootManager.Walk.Session.{Leads}
use uefi_game.BootManager.Round.{Setting}
use uefi_game.BootManager.Round.Ready.{IsReady, Places, place_lem, after}
use uefi_game.BootManager.Round.Entry.{
  NoneStale, Played, Leaves, Leaves-Places, maze_game_lem, maze_game_boots,
}
use uefi_game.BootManager.Boot.{Platform, Outcome, waits, returns, unstarted}
use uefi_game.BootManager.Main.{Files, two_d_config, finish, uefi_main}
use uefi_game.BootManager.Main.Setup.{IsInstalled, IsRead}
use uefi_game.BootManager.Main.Finish.{Boots, range_lem, finish_lem}
use uefi_game.BootManager.Main.Drive.{setting, IsPlayable, pixels, pixels_full, drive_lem}

module _ (p : Platform) (i : IsInstalled p two_d_config) (g : IsPlayable p i) where
  open p use {efi, boot_services}

  -- What `Game` is called with, and that it can be played.
  abbrev pub game : Setting
  game = setting p i g.textures (pixels p i g)

  abbrev pub ready :
      IsReady efi boot_services p.pixel_pool p.allocate_pool p.reallocate_pool i.self p.rand g.room
        g.grows game
  ready = g.ready (pixels p i g) (pixels_full p i g)

  -- How the application ends: in the game, on the way or by the Escape key, or in an entry that the
  -- game has chosen.
  pub record Ends (o : Outcome) : Type 0 where
    pub files : Files
    pub read : IsRead p two_d_config i files
    pub walk : Walk
    pub played :
        Played efi boot_services p.pixel_pool p.allocate_pool p.reallocate_pool i.self p.rand g.room
          g.grows game ready g.screen walk
    pub ends :
        (walk.escaped ≡ false) × (o ≡ waits)
        ⊎ (walk.escaped ≡ true)
          × ((walk.entry_to_boot ≡ escape_entry) × (o ≡ returns (unstarted g.sprite.status))
              ⊎ Boots p two_d_config i files read walk.entry_to_boot o)

  finish-Ends :
      (f : Files) (r : IsRead p two_d_config i f) (w : Walk)
      → Played efi boot_services p.pixel_pool p.allocate_pool p.reallocate_pool i.self p.rand g.room
          g.grows game ready g.screen w
      → Returns Ends (
          let finished = finish p f g.sprite.status w.entry_to_boot in
          if w.escaped then finished else ok waits)
  finish-Ends f r w played = elim (Bool-cases w.escaped) [
    | inr on ↦ rw on (
        Returns-ok
          (record { files = f; read = r; walk = w; played = played; ends = inl (on, refl) }))
    | inl over ↦ rw over (
        Returns-map
          (finish_lem p two_d_config i f r g.sprite.status w.entry_to_boot g.loads
            (range_lem p two_d_config i f r w.entry_to_boot played.in_table))
          (λ o e. record { files = f; read = r; walk = w; played = played; ends = inr (over, e) }))
  ]

  -- The configuration file, the map, the names of the textures and the sprite are laid out as the
  -- parsers expect, the map with a zero byte at its end, the hard drive partitions come first
  -- among the handles, every texture is read and halved, the sprite fills a cell, the game that
  -- the files describe is one that can be played (as in `maze_game_lem`), an image that
  -- `LoadImage` loads has a handle and a protocol, and no pass boots by a stale map value. Then
  -- `UefiMain` never faults, whatever is pressed. It waits in that game; or the game has ended
  -- with `ESCAPE_ENTRY`, and it has returned the status of reading the sprite, with nothing
  -- started; or the game has ended with the index of an entry of the configuration file, and it
  -- has returned what `BootEntry` returns for that entry: it starts it from the first with its
  -- GUID of the hard drive partitions, which are the handles that the firmware lists with the
  -- signatures of their paths, or nothing if there is none or the loading fails.
  pub two_d_main_lem :
      (keys : List KeyPress)
      → NoneStale (length i.names.lines) keys
      → Returns Ends (uefi_main p keys)
  two_d_main_lem keys honest = drive_lem p i g Ends keys (λ f r.
      Returns-bind _
        (maze_game_lem efi boot_services p.pixel_pool p.allocate_pool p.reallocate_pool i.self
          p.rand g.room g.grows game ready g.screen keys honest)
        (λ w h. finish-Ends f r w h))

  -- The map that `PlaceBootEntries` leaves.
  abbrev pub IsPlacing : Placing (List Pixel) → Type 0
  IsPlacing =
      Leaves efi boot_services p.pixel_pool p.allocate_pool p.reallocate_pool i.self p.rand g.room
        g.grows game ready

  -- Each entry has an escape of its own there.
  abbrev pub IsPlaced : Placing (List Pixel) → Type 0
  IsPlaced =
      Places efi boot_services p.pixel_pool p.allocate_pool p.reallocate_pool i.self p.rand g.room
        g.grows game ready

  -- There is such a map.
  pub placing_lem : (q : Placing (List Pixel)) × IsPlacing q × IsPlaced q
  placing_lem =
      let a =
        place_lem efi boot_services p.pixel_pool p.allocate_pool p.reallocate_pool i.self p.rand
          g.room g.grows game ready in
      (a.out, a.returns, a.holds)

  abbrev pub maze_of : Placing (List Pixel) → Maze
  maze_of =
      after efi boot_services p.pixel_pool p.allocate_pool p.reallocate_pool i.self p.rand g.room
        g.grows game ready

  -- `UefiMain` returns what `BootEntry` returns for this entry.
  abbrev pub BootsEntry : ℕ → Outcome → Type 0
  BootsEntry e o = (f : Files) × (r : IsRead p two_d_config i f) × Boots p two_d_config i f r e o

  finish-Boots :
      (f : Files) (r : IsRead p two_d_config i f) (e : ℕ) (w : Walk)
      → e < length i.entries.more + 1
      → w.escaped ≡ true
      → w.entry_to_boot ≡ e
      → Returns (BootsEntry e) (
          let finished = finish p f g.sprite.status w.entry_to_boot in
          if w.escaped then finished else ok waits)
  finish-Boots f r e w low over same =
      rw (over, same)
        (Returns-map
          (finish_lem p two_d_config i f r g.sprite.status e g.loads
            (range_lem p two_d_config i f r e (inr low)))
          (λ o c. elim c [
            | inl escapes ↦ absurd (omega (arith, escapes.0, i.entries.few))
            | inr b ↦ (f, r, b)
          ]))

  -- The files are laid out and the game can be played, as in `two_d_main_lem`. On the map that
  -- `PlaceBootEntries` leaves, the cell of a boot entry lies beside the end of a path of free
  -- cells from the start at column 1 of row 17. Then there are keys with which `UefiMain` returns
  -- what `BootEntry` returns for that entry: it starts it from the first with its GUID of the hard
  -- drive partitions, which are the handles that the firmware lists with the signatures of their
  -- paths, or nothing if there is none or the loading fails.
  pub two_d_main_boots :
      (q : Placing (List Pixel)) (e : ℕ)
      → IsPlacing q
      → Leads (maze_of q) (1, 17) e
      → (keys : List KeyPress) × Returns (BootsEntry e) (uefi_main p keys)
  two_d_main_boots q e place l =
      let (low, (keys, run)) =
        maze_game_boots efi boot_services p.pixel_pool p.allocate_pool p.reallocate_pool i.self
          p.rand g.room g.grows game ready g.screen q e place
          (Leaves-Places efi boot_services p.pixel_pool p.allocate_pool p.reallocate_pool i.self
            p.rand g.room g.grows game ready q place)
          l in
      (
        keys,
        drive_lem p i g (BootsEntry e) keys
            (λ f r. Returns-bind _ run (λ w h. finish-Boots f r e w low h.0 h.1)),
      )
