-- ===== src/Pixels.antt =====
-- `EFI_GRAPHICS_OUTPUT_BLT_PIXEL`, as the programs use it: four bytes.
use uefi_game.Prelude.{ℕ}

pub record Pixel : Type 0 where
  pub blue : ℕ
  pub green : ℕ
  pub red : ℕ
  pub reserved : ℕ

-- A cleared pixel, as `AllocateZeroPool` leaves it.
abbrev pub zero_pixel : Pixel
zero_pixel = record { blue = 0; green = 0; red = 0; reserved = 0 }

-- The red, green and blue bytes alone are set.
abbrev pub set_rgb : ℕ → ℕ → ℕ → Pixel → Pixel
set_rgb r g b p = record p { red = r; green = g; blue = b }
