-- ===== src/Maze/Level/Parsing.antt =====
-- `ParseMazeFile`: the maze that a file describes.
use uefi_game.Prelude.{
  ℕ, ◌+◌, ◌*◌, ◌/◌, ◌^◌, ◌≤◌, ◌<◌, ◌≡◌, refl, ap, ◌∙◌, ◌≢◌, some, List, arith, wrap, wrap_lem,
  length, get_elem?, set, get_elem?-of_lt, get_or, get_elem?-eq-get_or, get_or-of_get_elem?, ok,
  Returns, Returns-ok, store_lem, InGrid, grid_lem, row_major_lt, row_major_inj,
}
use native.Mathlib.Nat.{div-mul-le_self}
use uefi_game.Lines.{line_width, line_width_lem}
use uefi_game.Maze.Level.{MazeCellType, Maze, cell_type, parse_cell, parse_maze_file}

module _ (pool : ℕ → List MazeCellType) (file : List ℕ) (w : ℕ)
    (broken : get_elem? file w ≡ some b'\n')
    (first : (k : ℕ) → k < w → get_elem? file k ≢ some b'\n') (small : length file < 2 ^ 60) where
  abbrev height : ℕ
  height = length file / (w + 1)

  -- The place of column `p.1` of row `p.0`, and of its letter.
  place : ℕ × ℕ → ℕ
  place p = p.0 * w + p.1

  letter : ℕ × ℕ → ℕ
  letter p = p.0 * (w + 1) + p.1

  parsed : ℕ × ℕ → MazeCellType → MazeCellType
  parsed p a = cell_type (get_or file (letter p) 0)

  letter_lt : (p : ℕ × ℕ) → InGrid height w p → letter p < length file
  unfolding letter
  letter_lt p h =
      let fit = div-mul-le_self (length file) (w + 1) in
      let l = row_major_lt height (w + 1) p (h.0, omega arith) in omega arith

  place_lt : (p : ℕ × ℕ) → InGrid height w p → place p < height * w
  unfolding place
  place_lt p h = row_major_lt height w p h

  area : height * w ≤ length file
  area = let f = div-mul-le_self (length file) (w + 1) in grind arith

  place_inj : (p q : ℕ × ℕ) → InGrid height w p → InGrid height w q → place p ≡ place q → p ≡ q
  unfolding place
  place_inj p q h g e = row_major_inj w p q h.1 g.1 e

  parse_cell_lem :
      (i j : ℕ) (s : List MazeCellType) (a : MazeCellType)
      → i < height
      → j < w
      → length s ≡ height * w
      → get_elem? s (place (i, j)) ≡ some a
      → parse_cell file w i j s ≡ ok (set s (place (i, j)) (parsed (i, j) a))
  unfolding parse_cell place parsed letter
  parse_cell_lem i j s a hi hj e at =
      let from : i * (w + 1) + j < length file = unfold letter in letter_lt (i, j) (hi, hj) in
      let to : i * w + j < height * w = unfold place in place_lt (i, j) (hi, hj) in
      let bound = area in
      rw
        (
          wrap_lem (i * (w + 1) + j) (omega arith),
          get_elem?-eq-get_or file (i * (w + 1) + j) 0 from,
          wrap_lem (i * w + j) (omega arith),
        )
        (store_lem s (i * w + j) (cell_type (get_or file (i * (w + 1) + j) 0)) (omega arith))

  -- A file of less than 2 ^ 60 bytes whose first line break comes after `w` letters gives a maze of
  -- that width, with as many rows as the file has room for, without an access out of bounds, if the
  -- pool has room for its cells; column `x` of row `y` is what letter `x` of line `y` stands for.
  pub parse_maze_file_lem :
      length (pool (w * height * 4)) ≡ height * w
      → Returns
          (λ (r : Maze).
            (r.width ≡ w)
            × (r.height ≡ height)
            × (length r.maze_cells ≡ height * w)
            × ((y x c : ℕ)
                → y < height
                → x < w
                → get_elem? file (y * (w + 1) + x) ≡ some c
                → get_elem? r.maze_cells (y * w + x) ≡ some (cell_type c)))
          (parse_maze_file pool file (length file))
  unfolding parse_maze_file place parsed letter
  parse_maze_file_lem room =
      let bound = area in
      let bytes : wrap (w * height * 4) ≡ w * height * 4 = wrap_lem _ (omega arith) in
      let g =
        grid_lem height w (height * w) place parsed (parse_cell file w) place_inj place_lt
          parse_cell_lem (pool (w * height * 4)) room in
      let line : line_width file 0 ≡ ok w =
        line_width_lem file w 0 broken first ∙ ap ok (omega arith) in
      rw (line, bytes, g.returns)
        (Returns-ok (
          refl,
          refl,
          g.holds.size ∙ room,
          λ y x c hy hx e.
              let (a, at) =
                get_elem?-of_lt (pool (w * height * 4)) (y * w + x)
                  (rw room (row_major_lt height w (y, x) (hy, hx))) in
              g.holds.inside (y, x) a (hy, hx) at
              ∙ ap (λ k. some (cell_type k)) (get_or-of_get_elem? file (y * (w + 1) + x) 0 e),
        ))
