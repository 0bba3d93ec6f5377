-- ===== src/BootManager/Walk/Game.antt =====
-- `Game` from its first picture to its return.
use uefi_game.Prelude.{
  true, false, ◌≡◌, ℕ, ◌<◌, refl, inl, inr, Bool-cases, ◌==◌, ◌&&◌, List, [], Returns, Returns-ok,
  for_loop_from_zero,
}
use uefi_game.Pixels.{Pixel}
use uefi_game.BootManager.Walk.{
  KeyPress, Walk, escape_entry, Maze, Blt, draw_cell, draw_maze, walk_maze,
}
use uefi_game.BootManager.Walk.Moves.{IsValid, Inside}
use uefi_game.BootManager.Walk.Paths.{Drawable, cell_image_lem, with_sprite_lem}
use uefi_game.BootManager.Walk.Session.{here, AllHonest, Leads, Ending, walk_loop_lem}
use uefi_game.BootManager.Walk.Ways.{walk_loop_boots}

module _ (maze : Maze) (zero_pool : ℕ → List Pixel) (textures : List (List Pixel))
    (sprite : List Pixel) (width_margin height_margin : ℕ) (valid : IsValid maze)
    (d : Drawable maze zero_pool textures sprite width_margin height_margin) where
  draw_cell_lem :
      (y x : ℕ) (drawn : List Blt)
      → y < maze.map_height
      → x < maze.map_width
      → Returns
          (λ b. Unit {0})
          (draw_cell maze zero_pool textures sprite width_margin height_margin y x drawn)
  unfolding draw_cell
  draw_cell_lem y x drawn hy hx =
      let image =
        cell_image_lem maze zero_pool textures sprite width_margin height_margin valid d (x, y)
          (hx, hy) in
      let over =
        with_sprite_lem maze zero_pool textures sprite width_margin height_margin valid d image.out
          image.holds in
      elim (Bool-cases (x == 1 && y == 17)) [
        | inl start ↦ rw (image.returns, start, over.returns) (Returns-ok tt)
        | inr rest ↦ rw (image.returns, rest) (Returns-ok tt)
      ]

  draw_maze_lem :
      Returns (λ b. Unit {0}) (draw_maze maze zero_pool textures sprite width_margin height_margin)
  unfolding draw_maze
  draw_maze_lem =
      for_loop_from_zero (λ y b. Unit {0}) _ maze.map_height
        (λ y drawn hy u.
          for_loop_from_zero (λ x b. Unit {0})
            (draw_cell maze zero_pool textures sprite width_margin height_margin y) maze.map_width
            (λ x b hx v. draw_cell_lem y x b hy hx) drawn tt)
        [] tt

  -- On a valid maze with textures for its cells the whole game never faults. If it ends with an
  -- entry to boot, the cell of that entry lies beside a cell that free cells connect with the start
  -- at column 1 of row 17.
  pub walk_maze_lem :
      (keys : List KeyPress)
      → Inside maze (1, 17)
      → AllHonest maze keys
      → Returns
          (Ending maze zero_pool textures sprite width_margin height_margin (1, 17))
          (walk_maze maze zero_pool textures sprite width_margin height_margin keys)
  unfolding walk_maze
  walk_maze_lem keys i honest = rw (draw_maze_lem.returns) (
      walk_loop_lem maze zero_pool textures sprite width_margin height_margin valid d (1, 17) keys _
        i honest (inl (here, refl)))

  -- Every entry whose cell lies beside the end of a path of free cells from the start can be booted:
  -- there are keys that end the game with it.
  pub walk_maze_boots :
      (e : ℕ)
      → Inside maze (1, 17)
      → Leads maze (1, 17) e
      → (keys : List KeyPress) × Returns
          (λ (g : Walk). (g.escaped ≡ true) × (g.entry_to_boot ≡ e))
          (walk_maze maze zero_pool textures sprite width_margin height_margin keys)
  unfolding walk_maze
  walk_maze_boots e i l =
      let (keys, run) =
        walk_loop_boots maze zero_pool textures sprite width_margin height_margin valid d (1, 17) e
          (record {
            cur_x = 1;
            cur_y = 17;
            entry_to_boot = escape_entry;
            escaped = false;
            drawn = draw_maze_lem.out;
          })
          i (refl, refl) l in
      (keys, rw draw_maze_lem.returns run)
