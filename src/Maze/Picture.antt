-- ===== src/Maze/Picture.antt =====
-- Application/Maze/Maze.c, `UefiMain`: the sizes on the screen and the picture of the maze. The
-- numbers are far below the bounds of the machine's, since `width` and `height` are `UINT16`s.
pub mod Layout
pub mod Spots
pub mod Drawing
use uefi_game.Prelude.{
  ◌>>=◌, ℕ, ◌+◌, ◌-◌, ◌*◌, ◌/◌, List, ltb, ◌==◌, if◌then◌else◌, Result, ok, fault, load, store,
  for_loop,
}
use uefi_game.Pixels.{Pixel, set_rgb}
use uefi_game.Maze.Level.{MazeCellType, Maze, empty, wall, start, end, unknown}

pub record Geometry : Type 0 where
  pub cell_side : ℕ
  pub height_margin : ℕ
  pub width_margin : ℕ
  pub offset : ℕ

pub divide : ℕ → ℕ → Result ℕ
divide a b = if b == 0 then fault else ok (a / b)

-- The products are at most `width` and `height`, so no difference is negative.
unfoldable pub geometry : ℕ → ℕ → Maze → Result Geometry
unfolding divide
geometry width height maze = do
  cell_width ← divide width maze.width
  cell_height ← divide height maze.height
  let cell_side = if ltb cell_width cell_height then cell_width else cell_height
  let height_margin = (height - cell_side * maze.height) / 2
  let width_margin = (width - cell_side * maze.width) / 2
  ok (record {
    cell_side = cell_side;
    height_margin = height_margin;
    width_margin = width_margin;
    offset = height_margin * width + width_margin;
  })

pub record Picture : Type 0 where
  pub pixels : List Pixel
  pub pos_x : ℕ
  pub pos_y : ℕ
  pub end_x : ℕ
  pub end_y : ℕ

-- What a case of the `switch` writes into a pixel.
abbrev pub paint_type : MazeCellType → Pixel → Pixel
paint_type empty = set_rgb 0 0 0
paint_type wall = set_rgb 112 157 100
paint_type start = set_rgb 0 0 0
paint_type end = set_rgb 77 109 243
paint_type unknown = set_rgb 255 0 0

-- The variables that a case sets; that of a start falls through to that of an empty cell.
abbrev pub note_cell : MazeCellType → ℕ → ℕ → Picture → Picture
note_cell start i j p = record p { pos_x = j; pos_y = i }
note_cell end i j p = record p { end_x = j; end_y = i }
note_cell empty i j p = p
note_cell wall i j p = p
note_cell unknown i j p = p

module _ (width : ℕ) (maze : Maze) (g : Geometry) where
  open g use {cell_side, offset}

  unfoldable pub draw_pixel : ℕ → ℕ → ℕ → ℕ → Picture → Result Picture
  draw_pixel i j a b p = do
    cell ← load maze.maze_cells (i * maze.width + j)
    let at = offset + width * (cell_side * i + a) + cell_side * j + b
    old ← load p.pixels at
    pixels ← store p.pixels at (paint_type cell old)
    ok (record (note_cell cell i j p) { pixels = pixels })

  unfoldable pub draw_picture : List Pixel → Result Picture
  unfolding for_loop draw_pixel
  draw_picture pixels =
      for_loop maze.height 0
        (λ i.
          for_loop maze.width 0
            (λ j. for_loop cell_side 0 (λ a. for_loop cell_side 0 (draw_pixel i j a))))
        (record { pixels = pixels; pos_x = 0; pos_y = 0; end_x = 0; end_y = 0 })
