-- ===== src/Console.antt =====
-- What the programs use of the console and of the graphics protocol: the scan code of a key, and a
-- copy of an image to the screen.
use uefi_game.Prelude.{ℕ, List}
use uefi_game.Pixels.{Pixel}

-- `Key.ScanCode`
pub data ScanCode : Type 0 where
  up down left right esc other : ScanCode

-- A copy of an image to the screen.
pub record Blt : Type 0 where
  pub image : List Pixel
  pub to_x : ℕ
  pub to_y : ℕ
