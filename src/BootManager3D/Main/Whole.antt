-- ===== src/BootManager3D/Main/Whole.antt =====
-- `UefiMain` of BootManager3D as a whole.
use uefi_game.Prelude.{ℕ, ◌*◌, ◌≡◌, ◌⊎◌, true, false, some, List, length, replicate}
use uefi_game.Doubles.{Doubles}
use uefi_game.Pixels.{Pixel, zero_pixel}
use uefi_game.BootManager.Icons.Growth.{Grows}
use uefi_game.BootManager.Walk.{escape_entry}
use uefi_game.BootManager.Boot.{Platform, Outcome, waits, returns, unstarted}
use uefi_game.BootManager.Main.{Files}
use uefi_game.BootManager.Main.Setup.{IsInstalled, IsRead, HasTextures, config_of, grid_of}
use uefi_game.BootManager.Main.Finish.{Loads, Boots}
use uefi_game.BootManager3D.View.{View}
use uefi_game.BootManager3D.Game.{Tour, Setting}
use uefi_game.BootManager3D.Game.Whole.{IsReady, Toured}
use uefi_game.BootManager3D.Main.{three_d_config, whole}

module _ (p : Platform) (d : Doubles) (fuel : ℕ) (i : IsInstalled p three_d_config) where
  open p use {efi, boot_services}

  -- What `Game` is called with.
  abbrev pub setting : List (List Pixel) → Setting d
  setting textures = record {
    map = (grid_of p i.map).numbers;
    map_width = (grid_of p i.map).width;
    map_height = (grid_of p i.map).height;
    textures = record { images = textures; count = length i.names.lines };
    boot_entries = (config_of p i.entries).result;
    boot_entries_count = (config_of p i.entries).result_size;
  }

  -- The game that the files describe can be played.
  pub record IsPlayable (Fair : View d → Type 0) : Type 0 where
    pub textures : List (List Pixel)
    pub textured : HasTextures p three_d_config i whole textures
    pub screen : ℕ × ℕ
    pub shown : p.screen ≡ some screen
    pub room : (n : ℕ) → p.pixel_pool (4 * n) ≡ replicate n zero_pixel
    pub grows : Grows p.allocate_pool p.reallocate_pool
    pub ready :
        IsReady d efi boot_services p.pixel_pool p.allocate_pool p.reallocate_pool i.self p.rand
          fuel room grows
          (setting textures)
          Fair
    pub loads : Loads p

  module _ (Fair : View d → Type 0) (g : IsPlayable Fair) where
    abbrev pub Tours : Tour d → Type 0
    Tours =
        Toured d efi boot_services p.pixel_pool p.allocate_pool p.reallocate_pool i.self p.rand fuel
          g.room g.grows (setting g.textures) Fair g.ready

    -- How the application ends: in the game, on the way or without an entry, or in an entry that the
    -- game has chosen.
    pub record Ends (o : Outcome) : Type 0 where
      pub files : Files
      pub read : IsRead p three_d_config i files
      pub tour : Tour d
      pub toured : Tours tour
      pub ends :
          (tour.ready_to_boot ≡ false) × (o ≡ waits)
          ⊎ (tour.ready_to_boot ≡ true)
            × ((tour.entry_to_boot ≡ escape_entry) × (o ≡ returns (unstarted efi.efi_success))
                ⊎ Boots p three_d_config i files read tour.entry_to_boot o)
