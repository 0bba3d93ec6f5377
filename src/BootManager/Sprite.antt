-- ===== src/BootManager/Sprite.antt =====
-- Application/BootManager2D/src/Config.c, `ParseSprite`. `file` is what `ReadFile` has stored, and
-- `zero_pool` stands for `AllocateZeroPool`, from a number of bytes to the pixels there.
pub mod Painting
use uefi_game.Prelude.{
  ℕ, ◌+◌, ◌*◌, ◌/◌, ◌==◌, if◌then◌else◌, wrap, List, [], ◌∷◌, Option, none, some, Result, ok, fault,
  ◌>>=◌, load, store, length, for_loop,
}
use uefi_game.Pixels.{Pixel}
use uefi_game.Lines.{line_width}

pub record Sprite : Type 0 where
  pub pixels : List Pixel
  pub width : ℕ
  pub height : ℕ

abbrev opaque_pixel : ℕ → ℕ → ℕ → Pixel
opaque_pixel r g b = record { red = r; green = g; blue = b; reserved = 0xff }

-- The cases of the `switch`; no pixel is written in the last one.
unfoldable pub colour : ℕ → Option Pixel
colour c =
    if c == b'k'
    then some (opaque_pixel 0 0 0)
    else if c == b'b'
    then some (opaque_pixel 47 54 153)
    else if c == b'l'
    then some (opaque_pixel 77 109 243)
    else if c == b'y'
    then some (opaque_pixel 255 242 0)
    else if c == b'g'
    then some (opaque_pixel 255 194 14)
    else if c == b'r'
    then some (opaque_pixel 180 180 180)
    else if c == b'w'
    then some (opaque_pixel 255 255 255)
    else if c == b'p'
    then some (opaque_pixel 255 205 148)
    else if c == b's'
    then some (opaque_pixel 255 224 189)
    else if c == b'n'
    then some (opaque_pixel 156 90 60)
    else if c == b'd'
    then some (opaque_pixel 107 37 7)
    else none

pub put_pixel : Option Pixel → ℕ → List Pixel → Result (List Pixel)
put_pixel none at pixels = ok pixels
put_pixel (some p) at pixels = store pixels at p

pub paint : List ℕ → ℕ → ℕ → ℕ → List Pixel → Result (List Pixel)
paint file width i j pixels = do
  c ← load file (wrap (j * (width + 1) + i))
  put_pixel (colour c) (wrap (j * width + i)) pixels

unfoldable pub parse_sprite : (ℕ → List Pixel) → List ℕ → Result Sprite
parse_sprite zero_pool file = do
  width ← line_width file 0
  let height = length file / (width + 1)
  pixels ←
      for_loop width 0 (λ i. for_loop height 0 (paint file width i))
        (zero_pool (wrap (4 * width * height)))
  ok (record { pixels = pixels; width = width; height = height })
