-- ===== src/Tests/Departures.antt =====
-- Application/BootManager3D/src/Main.c: a whole run of the application, on the disk of Shelf.
use uefi_game.Prelude.{refl, List, [], ◌∷◌, ◌++◌, arith, replicate}
use uefi_game.BootManager.Numbers.Rows.{Row, AreWide}
use uefi_game.BootManager.Boot.{Platform}
use uefi_game.BootManager.Main.Setup.{IsInstalled}
use uefi_game.BootManager3D.Main.{three_d_config}
use uefi_game.Tests.Icons.{repeated}
use uefi_game.Tests.Startups.{AreWide-replicate, AreWide-append}
use uefi_game.Tests.Shelf.{computer, computer-IsInstalled}

-- Walls, and one open row of a free cell and twelve escapes.
abbrev wall : Row
wall = record { first = 2; others = repeated 14 2 }

abbrev open_row : Row
open_row = record { first = 2; others = 0 ∷ repeated 12 10 ++ 2 ∷ [] }

abbrev others : List Row
others = replicate 16 wall ++ open_row ∷ wall ∷ []

rows-AreWide : AreWide 15 (wall ∷ others)
rows-AreWide = (
  refl,
  AreWide-append 15 (replicate 16 wall) (open_row ∷ wall ∷ []) (AreWide-replicate 15 16 wall refl)
      (refl, (refl, tt)),
)

abbrev pc : Platform
pc = computer (wall ∷ others)

abbrev installed : IsInstalled pc three_d_config
installed = computer-IsInstalled three_d_config wall others 15 refl rows-AreWide (omega arith)
