-- ===== src/Maze/Actor.antt =====
-- Application/Maze/Maze.c, `ParseActor`, behind its call of `ReadFile`: `file` is what `ReadFile` has
-- stored, and `size` its size.
pub mod Painting
use uefi_game.Prelude.{
  ℕ, ◌+◌, ◌*◌, ◌/◌, Bool, true, false, List, ◌==◌, if◌then◌else◌, wrap, Result, ok, ◌>>=◌, load,
  store, for_loop,
}
use uefi_game.Pixels.{Pixel, set_rgb}
use uefi_game.Lines.{line_width}

pub record Painted : Type 0 where
  pub pixels : List Pixel
  pub returned : Bool

-- The cases of the `switch`: the bytes that a case stores, or `return`.
pub data Case : Type 0 where
  rgb : ℕ → ℕ → ℕ → Case
  break return : Case

unfoldable pub letter_case : ℕ → Case
letter_case c =
    if c == b'k'
    then rgb 0 0 0
    else if c == b'b'
    then rgb 47 54 153
    else if c == b'l'
    then rgb 77 109 243
    else if c == b'y'
    then rgb 255 242 0
    else if c == b'g'
    then rgb 255 194 14
    else if c == b'r'
    then rgb 180 180 180
    else if c == b'w'
    then rgb 255 255 255
    else if c == b'p'
    then rgb 255 205 148
    else if c == b's'
    then rgb 255 224 189
    else if c == b'n'
    then rgb 156 90 60
    else if c == b'd'
    then rgb 107 37 7
    else if c == b'.'
    then break
    else return

pub paint_case : Case → ℕ → Painted → Result Painted
paint_case (rgb r g b) at p = do
  old ← load p.pixels at
  pixels ← store p.pixels at (set_rgb r g b old)
  ok (record p { pixels = pixels })
paint_case break at p = ok p
paint_case return at p = ok (record p { returned = true })

-- A round of the loops; after the `return` there is none.
pub paint_letter : List ℕ → ℕ → ℕ → ℕ → ℕ → Painted → Result Painted
unfolding wrap letter_case paint_case
paint_letter file width box_side i j p = do
  let painted = load file (wrap (j * (width + 1) + i)) >>= λ c.
      paint_case (letter_case c) (wrap (j * box_side + i)) p
  if p.returned then ok p else painted

unfoldable pub parse_actor : List ℕ → ℕ → List Pixel → ℕ → Result (List Pixel)
unfolding for_loop line_width paint_letter
parse_actor file size pixels box_side = do
  width ← line_width file 0
  let height = size / (width + 1)
  p ←
      for_loop width 0 (λ i. for_loop height 0 (paint_letter file width box_side i))
        (record { pixels = pixels; returned = false })
  ok p.pixels
