-- ===== src/Maze/Walk/Edges.antt =====
-- What the guards on `maze.height` and `maze.width` let through.
use uefi_game.Prelude.{
  ℕ, ◌+◌, ◌*◌, ◌≤◌, ◌≡◌, refl, false, List, arith, ◌==◌, length, get_elem?-of_le, fault, Returns,
  Returns-ok,
}
use uefi_game.Pixels.{Pixel}
use uefi_game.Console.{down, right}
use uefi_game.Maze.Level.{Maze}
use uefi_game.Maze.Picture.{Geometry}
use uefi_game.Maze.Walk.{Walk, try_cell, look, pass, step}
use uefi_game.Maze.Walk.Session.{Pos, Free}

module _ (maze : Maze) (g : Geometry) (empty_cell actor : List Pixel) (end : Pos) where
  -- In the last row of a maze with all its cells, and no more, the key down reads behind the map.
  pub step_below :
      (status : ℕ) (w : Walk)
      → length maze.maze_cells ≡ maze.height * maze.width
      → w.pos_y + 1 ≡ maze.height
      → step maze g empty_cell actor end.x end.y (record { scan_code = down; status = status }) w
        ≡ fault
  unfolding step look try_cell
  step_below status w cells last =
      let e : (w.pos_y == maze.height) ≡ false = ground arith in
      let out : length maze.maze_cells ≤ (w.pos_y + 1) * maze.width + w.pos_x =
        rw (cells, last) (omega arith) in
      rw (e, get_elem?-of_le maze.maze_cells ((w.pos_y + 1) * maze.width + w.pos_x) out) refl

  -- In the last column of a maze the key right reads the first cell of the next row: if that is
  -- free, the player stands in a column that the maze does not have.
  pub step_beside :
      (status : ℕ) (w : Walk)
      → w.pos_x + 1 ≡ maze.width
      → Free maze (record { x = 0; y = w.pos_y + 1 })
      → Returns
          (λ (v : Walk). (v.pos_x ≡ maze.width) × (v.pos_y ≡ w.pos_y))
          (step maze g empty_cell actor end.x end.y
            (record { scan_code = right; status = status })
            w)
  unfolding step look try_cell pass
  step_beside status w last (t, h, f) =
      let e : (w.pos_x == maze.width) ≡ false = ground arith in
      let same : w.pos_y * maze.width + w.pos_x + 1 ≡ (w.pos_y + 1) * maze.width + 0 =
        grind arith in
      rw (e, same, h, f) (Returns-ok (last, refl))
