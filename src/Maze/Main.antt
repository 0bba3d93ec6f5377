-- ===== src/Maze/Main.antt =====
-- Application/Maze/Maze.c, `UefiMain` as a whole. `maze_pool` and `pixel_pool` stand for
-- `AllocatePool`; `screen` is the resolution that the graphics protocol holds, and `none` if there is
-- no such protocol; `boot_options` is what `EfiBootManagerGetLoadOptions` returns. Its `Blt` of the
-- whole picture is the field `picture`, and the filling of the screen at the end is left out.
pub mod Preparing
pub mod Ending
use uefi_game.Prelude.{
  ℕ, ◌*◌, ◌%◌, ◌^◌, false, Option, List, [], ◌∷◌, ltb, if◌then◌else◌, Result, ok, fault, ◌>>=◌,
  or_fault, load, store, for_loop,
}
use uefi_game.Pixels.{Pixel, set_rgb}
use uefi_game.Disk
use uefi_game.Disk.{Firmware, FileData}
use uefi_game.Maze.Level.{MazeCellType, Maze, parse_maze_file}
use uefi_game.Maze.Actor.{parse_actor}
use uefi_game.Maze.Picture.{Geometry, Picture, geometry, draw_picture}
use uefi_game.Maze.Walk.{KeyPress, Walk, blt, walk_loop}

-- `L"labyrinth.txt"` and `L"sprite.txt"`
abbrev pub labyrinth_txt : List ℕ
labyrinth_txt =
    b'l' ∷ b'a' ∷ b'b' ∷ b'y' ∷ b'r' ∷ b'i' ∷ b'n' ∷ b't' ∷ b'h' ∷ b'.' ∷ b't' ∷ b'x' ∷ b't' ∷ []

abbrev pub sprite_txt : List ℕ
sprite_txt = b's' ∷ b'p' ∷ b'r' ∷ b'i' ∷ b't' ∷ b'e' ∷ b'.' ∷ b't' ∷ b'x' ∷ b't' ∷ []

-- `ReadFile`: the function of Maze.c is that of Wordle.c, line by line.
abbrev pub read_file : Firmware → List ℕ → Result FileData
read_file = Disk.read_file

-- One round of the loops that clear pixels.
pub clear_pixel : ℕ → List Pixel → Result (List Pixel)
clear_pixel i pixels = do old ← load pixels i; store pixels i (set_rgb 0 0 0 old)

-- `emptyCell` and `actor`
pub record Buffers : Type 0 where
  pub empty_cell : List Pixel
  pub actor : List Pixel

pub clear_both : ℕ → Buffers → Result Buffers
unfolding clear_pixel
clear_both i b = do
  empty_cell ← clear_pixel i b.empty_cell
  actor ← clear_pixel i b.actor
  ok (record { empty_cell = empty_cell; actor = actor })

-- What there is when the loop on the keys starts.
pub record Scene : Type 0 where
  pub maze : Maze
  pub place : Geometry
  pub picture : Picture
  pub buffers : Buffers

-- The application waits for a key, has returned a status, or has booted an option and returned.
pub data Outcome (O : Type 0) : Type 0 where
  waits : Outcome O
  returns : ℕ → Outcome O
  boots : O → ℕ → Outcome O

module _ (fw : Firmware) (maze_pool : ℕ → List MazeCellType) (pixel_pool : ℕ → List Pixel) where
  -- `width * height` is a product of `int`s; an overflow is undefined behaviour.
  pub prepare : ℕ × ℕ → Result Scene
  unfolding for_loop clear_pixel clear_both Disk.read_file parse_maze_file parse_actor geometry
      draw_picture
  prepare resolution = do
    let width = resolution.0 % 2 ^ 16
    let height = resolution.1 % 2 ^ 16
    size ← if ltb (width * height) (2 ^ 31) then ok (width * height) else fault
    pixels ← for_loop size 0 clear_pixel (pixel_pool (4 * width * height))
    labyrinth ← read_file fw labyrinth_txt
    maze ← parse_maze_file maze_pool labyrinth.word_list labyrinth.size
    place ← geometry width height maze
    picture ← draw_picture width maze place pixels
    let side = place.cell_side
    let pool = pixel_pool (4 * side * side)
    cleared ← for_loop (side * side) 0 clear_both (record { empty_cell = pool; actor = pool })
    sprite ← read_file fw sprite_txt
    actor ← parse_actor sprite.word_list sprite.size cleared.actor side
    ok (record {
      maze = maze;
      place = place;
      picture = picture;
      buffers = record { empty_cell = cleared.empty_cell; actor = actor };
    })

  -- The actor is drawn at the start before the first key.
  abbrev pub begin : Scene → Walk
  begin s = record {
    pos_x = s.picture.pos_x;
    pos_y = s.picture.pos_y;
    escaped = false;
    arrived = false;
    status = 0;
    drawn =
        blt s.maze s.place s.buffers.empty_cell s.buffers.actor s.picture.end_x s.picture.end_y
          s.buffers.actor s.picture.pos_x s.picture.pos_y
        ∷ [];
  }

  pub finish : {O : Type 0} → List O → Walk → Result (Outcome O)
  finish boot_options w =
      let booted = load boot_options 3 >>= λ o. ok (boots o w.status) in
      if w.escaped then ok (returns w.status) else if w.arrived then booted else ok waits

  unfoldable pub uefi_main :
      {O : Type 0} → Option (ℕ × ℕ) → List O → List KeyPress → Result (Outcome O)
  unfolding prepare finish walk_loop
  uefi_main screen boot_options keys = do
    resolution ← or_fault screen
    s ← prepare resolution
    w ←
        walk_loop s.maze s.place s.buffers.empty_cell s.buffers.actor s.picture.end_x
          s.picture.end_y keys (begin s)
    finish boot_options w
