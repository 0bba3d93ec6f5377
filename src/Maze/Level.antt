-- ===== src/Maze/Level.antt =====
-- Application/Maze/Maze.c, `ParseMazeFile`. `file` is what `ReadFile` has stored, and `file_size` its
-- size; `pool` stands for `AllocatePool`, from a number of bytes to the cells there.
pub mod Parsing
use uefi_game.Prelude.{
  ◌>>=◌, ℕ, ◌+◌, ◌*◌, ◌/◌, List, ◌==◌, if◌then◌else◌, wrap, Result, ok, load, store, for_loop,
}
use uefi_game.Lines.{line_width}

-- `MAZE_CELL_TYPE`
pub data MazeCellType : Type 0 where
  empty wall start end unknown : MazeCellType

pub record Maze : Type 0 where
  pub width : ℕ
  pub height : ℕ
  pub maze_cells : List MazeCellType

-- The cases of the `switch`.
unfoldable pub cell_type : ℕ → MazeCellType
cell_type c =
    if c == b'#'
    then wall
    else if c == b'.'
    then empty
    else if c == b'o'
    then start
    else if c == b'x'
    then end
    else unknown

pub parse_cell : List ℕ → ℕ → ℕ → ℕ → List MazeCellType → Result (List MazeCellType)
parse_cell file width i j cells = do
  c ← load file (wrap (i * (width + 1) + j))
  store cells (wrap (i * width + j)) (cell_type c)

unfoldable pub parse_maze_file : (ℕ → List MazeCellType) → List ℕ → ℕ → Result Maze
unfolding for_loop wrap line_width parse_cell cell_type
parse_maze_file pool file file_size = do
  width ← line_width file 0
  let height = file_size / (width + 1)
  cells ←
      for_loop height 0 (λ i. for_loop width 0 (parse_cell file width i))
        (pool (wrap (width * height * 4)))
  ok (record { width = width; height = height; maze_cells = cells })
