-- ===== src/Tests/Labyrinths.antt =====
-- Application/Maze/Maze.c on a maze of four columns and three rows.
use uefi_game.Prelude.{
  ℕ, zero, suc, ◌+◌, ◌*◌, ◌/◌, ◌≤◌, ◌<◌, ◌≡◌, refl, sym, ◌∙◌, ◌≢◌, ◌⊎◌, true, false, some, List, [],
  ◌∷◌, arith, length, replicate, get_elem?, some_inj, ok, Returns,
}
use uefi_game.Pixels.{Pixel, zero_pixel}
use uefi_game.Console.{up, left, right}
use uefi_game.Maze.Level.{
  MazeCellType, Maze, empty, wall, start, end, unknown, cell_type, parse_maze_file,
}
use uefi_game.Maze.Level.Parsing.{parse_maze_file_lem}
use uefi_game.Maze.Actor.{return, letter_case, parse_actor}
use uefi_game.Maze.Actor.Painting.{coloured, parse_actor_lem}
use uefi_game.Maze.Picture.{Geometry, Picture, paint_type, geometry, draw_picture}
use uefi_game.Maze.Picture.Layout.{Spot, Fits, InMaze, spot}
use uefi_game.Maze.Picture.Spots.{Single, cell_at}
use uefi_game.Maze.Picture.Drawing.{draw_picture_lem}
use uefi_game.Maze.Walk.{KeyPress, Walk, walk_loop}
use uefi_game.Maze.Walk.Session.{
  Pos, Holds, IsClosed, behind, FreePath, here, next, Reached, walk_loop-Reached,
}
use uefi_game.Maze.Walk.Ways.{walk_loop_arrives}

-- The walls around a start and an end beside it; `ReadFile` has cleared the last byte.
abbrev pub two_rooms : List ℕ
two_rooms =
    b'#' ∷ b'#' ∷ b'#' ∷ b'#' ∷ b'\n' ∷ b'#' ∷ b'o' ∷ b'x' ∷ b'#' ∷ b'\n' ∷ b'#' ∷ b'#' ∷ b'#'
    ∷ b'#' ∷ 0 ∷ []

abbrev pub level : Maze
level = record {
  width = 4;
  height = 3;
  maze_cells =
      wall ∷ wall ∷ wall ∷ wall ∷ wall ∷ start ∷ end ∷ wall ∷ wall ∷ wall ∷ wall ∷ wall ∷ [];
}

abbrev pub cell_pool : ℕ → List MazeCellType
cell_pool bytes = replicate (bytes / 4) unknown

pub parse_two_rooms : parse_maze_file cell_pool two_rooms 15 ≡ ok level
unfolding parse_maze_file
parse_two_rooms = refl

first_line : (k : ℕ) → k < 4 → get_elem? two_rooms k ≢ some b'\n'
first_line zero h = cc
first_line (suc zero) h = cc
first_line (suc (suc zero)) h = cc
first_line (suc (suc (suc zero))) h = cc
first_line (suc (suc (suc (suc k)))) h = absurd (omega arith)

parse_maze_file_lem_example :
    Returns
      (λ (r : Maze).
        (r.width ≡ 4)
        × (r.height ≡ 3)
        × (length r.maze_cells ≡ 12)
        × ((y x c : ℕ)
            → y < 3
            → x < 4
            → get_elem? two_rooms (y * 5 + x) ≡ some c
            → get_elem? r.maze_cells (y * 4 + x) ≡ some (cell_type c)))
      (parse_maze_file cell_pool two_rooms 15)
parse_maze_file_lem_example =
    parse_maze_file_lem cell_pool two_rooms 4 refl first_line (omega arith) refl

-- Two letters in a cell of two times two pixels.
abbrev pub hat : List ℕ
hat = b'r' ∷ b'.' ∷ b'\n' ∷ 0 ∷ []

abbrev blank : List Pixel
blank = replicate 4 zero_pixel

pub hat_first : (k : ℕ) → k < 2 → get_elem? hat k ≢ some b'\n'
hat_first zero h = cc
hat_first (suc zero) h = cc
hat_first (suc (suc k)) h = absurd (omega arith)

pub hat_known :
    (y x c : ℕ) → y < 1 → x < 2 → get_elem? hat (y * 3 + x) ≡ some c → letter_case c ≢ return
unfolding letter_case
hat_known zero zero c hy hx e = rw (sym (some_inj e)) (λ f. absurd cc)
hat_known zero (suc zero) c hy hx e = rw (sym (some_inj e)) (λ f. absurd cc)
hat_known zero (suc (suc x)) c hy hx e = absurd (omega arith)
hat_known (suc y) x c hy hx e = absurd (omega arith)

parse_actor_lem_example :
    Returns
      (λ (r : List Pixel).
        (length r ≡ 4)
        × ((y x c : ℕ) (a : Pixel)
            → y < 1
            → x < 2
            → get_elem? hat (y * 3 + x) ≡ some c
            → get_elem? blank (y * 2 + x) ≡ some a
            → get_elem? r (y * 2 + x) ≡ some (coloured (letter_case c) a))
        × ((y x : ℕ)
            → x < 2
            → (1 ≤ y) ⊎ (2 ≤ x)
            → get_elem? r (y * 2 + x) ≡ get_elem? blank (y * 2 + x)))
      (parse_actor hat 4 blank 2)
parse_actor_lem_example =
    parse_actor_lem hat 2 2 refl hat_first (omega arith) (omega arith) blank (omega arith)
      (omega arith) refl hat_known

-- A screen of nine times seven pixels.
abbrev pub shape : Geometry
shape = record { cell_side = 2; height_margin = 0; width_margin = 0; offset = 0 }

pub geometry-level : geometry 9 7 level ≡ ok shape
unfolding geometry
geometry-level = refl

fits : Fits 9 7 level shape
fits = record { wide = omega arith; high = omega arith; offset = refl }

start_only : (i j : ℕ) → i < 3 → j < 4 → cell_at level i j ≡ start → (i ≡ 1) × (j ≡ 1)
start_only zero zero hi hj e = absurd cc
start_only zero (suc zero) hi hj e = absurd cc
start_only zero (suc (suc zero)) hi hj e = absurd cc
start_only zero (suc (suc (suc zero))) hi hj e = absurd cc
start_only zero (suc (suc (suc (suc j)))) hi hj e = absurd (omega arith)
start_only (suc zero) zero hi hj e = absurd cc
start_only (suc zero) (suc zero) hi hj e = (refl, refl)
start_only (suc zero) (suc (suc zero)) hi hj e = absurd cc
start_only (suc zero) (suc (suc (suc zero))) hi hj e = absurd cc
start_only (suc zero) (suc (suc (suc (suc j)))) hi hj e = absurd (omega arith)
start_only (suc (suc zero)) zero hi hj e = absurd cc
start_only (suc (suc zero)) (suc zero) hi hj e = absurd cc
start_only (suc (suc zero)) (suc (suc zero)) hi hj e = absurd cc
start_only (suc (suc zero)) (suc (suc (suc zero))) hi hj e = absurd cc
start_only (suc (suc zero)) (suc (suc (suc (suc j)))) hi hj e = absurd (omega arith)
start_only (suc (suc (suc i))) j hi hj e = absurd (omega arith)

pub one_start : Single start level
one_start i j k l hi hj hk hl e f =
    let p = start_only i j hi hj e in
    let q = start_only k l hk hl f in (p.0 ∙ sym q.0, p.1 ∙ sym q.1)

end_only : (i j : ℕ) → i < 3 → j < 4 → cell_at level i j ≡ end → (i ≡ 1) × (j ≡ 2)
end_only zero zero hi hj e = absurd cc
end_only zero (suc zero) hi hj e = absurd cc
end_only zero (suc (suc zero)) hi hj e = absurd cc
end_only zero (suc (suc (suc zero))) hi hj e = absurd cc
end_only zero (suc (suc (suc (suc j)))) hi hj e = absurd (omega arith)
end_only (suc zero) zero hi hj e = absurd cc
end_only (suc zero) (suc zero) hi hj e = absurd cc
end_only (suc zero) (suc (suc zero)) hi hj e = (refl, refl)
end_only (suc zero) (suc (suc (suc zero))) hi hj e = absurd cc
end_only (suc zero) (suc (suc (suc (suc j)))) hi hj e = absurd (omega arith)
end_only (suc (suc zero)) zero hi hj e = absurd cc
end_only (suc (suc zero)) (suc zero) hi hj e = absurd cc
end_only (suc (suc zero)) (suc (suc zero)) hi hj e = absurd cc
end_only (suc (suc zero)) (suc (suc (suc zero))) hi hj e = absurd cc
end_only (suc (suc zero)) (suc (suc (suc (suc j)))) hi hj e = absurd (omega arith)
end_only (suc (suc (suc i))) j hi hj e = absurd (omega arith)

pub one_end : Single end level
one_end i j k l hi hj hk hl e f =
    let p = end_only i j hi hj e in let q = end_only k l hk hl f in (p.0 ∙ sym q.0, p.1 ∙ sym q.1)

abbrev screen : List Pixel
screen = replicate 63 zero_pixel

draw_picture_lem_example :
    Returns
      (λ (p : Picture).
        (length p.pixels ≡ 63)
        × ((s : Spot) (old : Pixel)
            → InMaze 9 7 level shape fits s
            → get_elem? screen (spot 9 7 level shape fits s) ≡ some old
            → get_elem? p.pixels (spot 9 7 level shape fits s)
              ≡ some (paint_type (cell_at level s.i s.j) old))
        × ((k : ℕ)
            → ((s : Spot) → InMaze 9 7 level shape fits s → spot 9 7 level shape fits s ≢ k)
            → get_elem? p.pixels k ≡ get_elem? screen k)
        × ((i j : ℕ)
            → i < 3
            → j < 4
            → 0 < 2
            → cell_at level i j ≡ start
            → (p.pos_x ≡ j) × (p.pos_y ≡ i))
        × ((i j : ℕ)
            → i < 3
            → j < 4
            → 0 < 2
            → cell_at level i j ≡ end
            → (p.end_x ≡ j) × (p.end_y ≡ i)))
      (draw_picture 9 level shape screen)
draw_picture_lem_example = draw_picture_lem 9 7 level shape fits refl one_start one_end screen refl

below_wall : (x : ℕ) → x < 4 → get_elem? level.maze_cells (8 + x) ≡ some wall
below_wall zero h = refl
below_wall (suc zero) h = refl
below_wall (suc (suc zero)) h = refl
below_wall (suc (suc (suc zero))) h = refl
below_wall (suc (suc (suc (suc x)))) h = absurd (omega arith)

behind_wall : (y : ℕ) → y < 3 → get_elem? level.maze_cells (y * 4 + 3) ≡ some wall
behind_wall zero h = refl
behind_wall (suc zero) h = refl
behind_wall (suc (suc zero)) h = refl
behind_wall (suc (suc (suc y))) h = absurd (omega arith)

level_below : (p : Pos) → p.y + 1 ≡ 3 → p.x < 4 → Holds level p wall
level_below p e h = let y : p.y ≡ 2 = omega arith in rw y (below_wall p.x h)

level_behind : (p : Pos) → p.x + 1 ≡ 4 → p.y < 3 → Holds level p wall
level_behind p e h = let x : p.x ≡ 3 = omega arith in rw x (behind_wall p.y h)

pub level-IsClosed : IsClosed level
level-IsClosed = record { cells = refl; last_row = level_below; last_column = level_behind }

abbrev pub first_pos : Pos
first_pos = record { x = 1; y = 1 }

abbrev pub last_pos : Pos
last_pos = record { x = 2; y = 1 }

abbrev beginning : Walk
beginning = record {
  pos_x = 1;
  pos_y = 1;
  escaped = false;
  arrived = false;
  status = 0;
  drawn = [];
}

abbrev keys : List KeyPress
keys =
    record { scan_code = up; status = 0 }
    ∷ record { scan_code = right; status = 0 }
    ∷ record { scan_code = left; status = 0 }
    ∷ []

pub way : FreePath level first_pos last_pos
way = next here behind (omega arith, omega arith) (end, refl, refl)

walk_loop-Reached_example :
    Returns
      (Reached level level-IsClosed shape [] [] last_pos first_pos)
      (walk_loop level shape [] [] 2 1 keys beginning)
walk_loop-Reached_example =
    walk_loop-Reached level level-IsClosed shape [] [] last_pos first_pos keys beginning
      (omega arith, omega arith) (start, refl, refl) (here, λ e. absurd cc)

walk_loop_arrives_example :
    (keys : List KeyPress) × Returns
      (λ (v : Walk). (v.arrived ≡ true) × (v.escaped ≡ false))
      (walk_loop level shape [] [] 2 1 keys beginning)
walk_loop_arrives_example =
    walk_loop_arrives level shape [] [] last_pos level-IsClosed beginning (omega arith, omega arith)
      refl way

-- Two cells without walls, one above the other.
abbrev open_level : Maze
open_level = record { width = 1; height = 2; maze_cells = start ∷ empty ∷ [] }

abbrev on_top : Walk
on_top = record beginning { pos_x = 0; pos_y = 0 }
