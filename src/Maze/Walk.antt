-- ===== src/Maze/Walk.antt =====
-- Application/Maze/Maze.c, `UefiMain`: the loop on the key presses. At the start of a pass `newX` and
-- `newY` are `posX` and `posY`, so they are not kept between passes; `Blt` appends what it draws; the
-- list of key presses ends where the player stops pressing keys.
pub mod Session
pub mod Ways
pub mod Edges
use uefi_game.Prelude.{
  ℕ, ◌+◌, ◌-◌, ◌*◌, Bool, true, false, ◌&&◌, ◌||◌, List, [], ◌∷◌, ◌++◌, ◌==◌, if◌then◌else◌, Result,
  ok, ◌>>=◌, load,
}
use uefi_game.Pixels.{Pixel}
use uefi_game.Console.{ScanCode, up, down, left, right, esc, other, Blt}
use uefi_game.Maze.Level.{MazeCellType, Maze, empty, wall, start, end, unknown}
use uefi_game.Maze.Picture.{Geometry}

-- What `ReadKeyStroke` stores and returns.
pub record KeyPress : Type 0 where
  pub scan_code : ScanCode
  pub status : ℕ

-- `arrived` tells that the loop was left by its `break`.
pub record Walk : Type 0 where
  pub pos_x : ℕ
  pub pos_y : ℕ
  pub escaped : Bool
  pub arrived : Bool
  pub status : ℕ
  pub drawn : List Blt

-- How the `switch` ends: by `continue`, or with `newX`, `newY` and `escaped`.
pub data Look : Type 0 where
  again : Look
  go : ℕ → ℕ → Bool → Look

abbrev pub is_wall : MazeCellType → Bool
is_wall wall = true
is_wall empty = false
is_wall start = false
is_wall end = false
is_wall unknown = false

module _ (maze : Maze) where
  open maze use {width, height, maze_cells}

  -- The part of a case behind its guard.
  pub try_cell : ℕ → ℕ → ℕ → Result Look
  try_cell at new_x new_y = do
    cell ← load maze_cells at
    ok (if is_wall cell then again else go new_x new_y false)

  pub look : ScanCode → ℕ → ℕ → Result Look
  unfolding try_cell
  look up x y = if y == 0 then ok again else try_cell ((y - 1) * width + x) x (y - 1)
  look down x y = if y == height then ok again else try_cell ((y + 1) * width + x) x (y + 1)
  look left x y = if x == 0 then ok again else try_cell (y * width + x - 1) (x - 1) y
  look right x y = if x == width then ok again else try_cell (y * width + x + 1) (x + 1) y
  look esc x y = ok (go x y true)
  look other x y = ok (go x y false)

  module _ (g : Geometry) (empty_cell actor : List Pixel) (end_x end_y : ℕ) where
    open g use {cell_side, width_margin, height_margin}

    abbrev pub blt : List Pixel → ℕ → ℕ → Blt
    blt image x y = record {
      image = image;
      to_x = x * cell_side + width_margin;
      to_y = y * cell_side + height_margin;
    }

    -- The part of a pass behind the `switch`.
    pub pass : Look → ℕ → Walk → Walk
    pass again status w = record w { status = status }
    pass (go new_x new_y leaves) status w = record {
      pos_x = new_x;
      pos_y = new_y;
      escaped = leaves;
      arrived = new_x == end_x && new_y == end_y;
      status = status;
      drawn = w.drawn ++ (blt empty_cell w.pos_x w.pos_y ∷ blt actor new_x new_y ∷ []);
    }

    pub step : KeyPress → Walk → Result Walk
    unfolding look pass
    step key w = do l ← look key.scan_code w.pos_x w.pos_y; ok (pass l key.status w)

    unfoldable pub walk_loop : List KeyPress → Walk → Result Walk
    unfolding step
    walk_loop [] w = ok w
    walk_loop (key ∷ keys) w =
        let rest = step key w >>= walk_loop keys in if w.escaped || w.arrived then ok w else rest
