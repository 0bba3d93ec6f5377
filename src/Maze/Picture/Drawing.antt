-- ===== src/Maze/Picture/Drawing.antt =====
-- The picture of the maze, and the places of its start and its end.
use uefi_game.Prelude.{
  ℕ, ◌+◌, ◌*◌, ◌<◌, ◌≡◌, ◌∙◌, ◌≢◌, inl, some, List, arith, length, get_elem?, Returns, Returns-map,
  for_loop, for_loop_from_zero, Touches-nothing,
}
use uefi_game.Pixels.{Pixel}
use uefi_game.Maze.Level.{Maze, start, end}
use uefi_game.Maze.Picture.{Geometry, Picture, paint_type, draw_pixel, draw_picture}
use uefi_game.Maze.Picture.Layout.{Spot, Fits, InMaze, spot}
use uefi_game.Maze.Picture.Spots.{cell_at, Single, Before, DrawnTo, Drawn-same, pixel_lem}

module _ (width height : ℕ) (maze : Maze) (g : Geometry) (fits : Fits width height maze g)
    (cells : length maze.maze_cells ≡ maze.height * maze.width) (one_start : Single start maze)
    (one_end : Single end maze) (pixels : List Pixel) (room : length pixels ≡ height * width) where
  abbrev Done : ℕ → ℕ → ℕ → ℕ → Picture → Type 0
  Done = DrawnTo width height maze g fits cells one_start one_end pixels room

  abbrev Shown : ℕ → ℕ → ℕ → ℕ → Spot → Type 0
  Shown = Before width height maze g fits cells one_start one_end

  Done-same :
      (i j a b k l c d : ℕ) (p : Picture)
      → Done i j a b p
      → ((s : Spot) → Shown k l c d s → Shown i j a b s)
      → ((s : Spot) → Shown i j a b s → Shown k l c d s)
      → Done k l c d p
  Done-same i j a b k l c d p h = Drawn-same width height maze g fits cells one_start one_end p h

  row_lem :
      (i j a : ℕ) (p : Picture)
      → i < maze.height
      → j < maze.width
      → a < g.cell_side
      → Done i j a 0 p
      → Returns (Done i j (a + 1) 0) (for_loop g.cell_side 0 (draw_pixel width maze g i j a) p)
  row_lem i j a p hi hj ha d =
      Returns-map
        (for_loop_from_zero (Done i j a) (draw_pixel width maze g i j a) g.cell_side
          (λ b q hb k.
            pixel_lem width height maze g fits cells one_start one_end pixels room i j a b q
              (hi, hj, ha, hb) k)
          p d)
        (λ q k. Done-same _ _ _ _ _ _ _ _ q k (λ s l. omega arith) (λ s l. omega arith))

  cell_lem :
      (i j : ℕ) (p : Picture)
      → i < maze.height
      → j < maze.width
      → Done i j 0 0 p
      → Returns
          (Done i (j + 1) 0 0)
          (for_loop g.cell_side 0 (λ a. for_loop g.cell_side 0 (draw_pixel width maze g i j a)) p)
  cell_lem i j p hi hj d =
      Returns-map
        (for_loop_from_zero (λ a. Done i j a 0)
          (λ a. for_loop g.cell_side 0 (draw_pixel width maze g i j a)) g.cell_side
          (λ a q ha k. row_lem i j a q hi hj ha k) p d)
        (λ q k. Done-same _ _ _ _ _ _ _ _ q k (λ s l. omega arith) (λ s l. omega arith))

  cells_lem :
      (i : ℕ) (p : Picture)
      → i < maze.height
      → Done i 0 0 0 p
      → Returns (Done (i + 1) 0 0 0) (
          for_loop maze.width 0
            (λ j.
              for_loop g.cell_side 0 (λ a. for_loop g.cell_side 0 (draw_pixel width maze g i j a)))
            p)
  cells_lem i p hi d =
      Returns-map
        (for_loop_from_zero (λ j. Done i j 0 0)
          (λ j.
            for_loop g.cell_side 0 (λ a. for_loop g.cell_side 0 (draw_pixel width maze g i j a)))
          maze.width (λ j q hj k. cell_lem i j q hi hj k) p d)
        (λ q k. Done-same _ _ _ _ _ _ _ _ q k (λ s l. omega arith) (λ s l. omega arith))

  -- For a maze with one start and one end at most, on a buffer of `height` rows of `width` pixels
  -- and in a place on that screen, the loops never leave a buffer. Every pixel of every cell gets
  -- the colour of the cell's type, no other pixel changes, and, if cells have a side above 0, the
  -- position and the end are those of the start and of the end of the maze.
  pub draw_picture_lem :
      Returns
        (λ (p : Picture).
          (length p.pixels ≡ height * width)
          × ((s : Spot) (old : Pixel)
              → InMaze width height maze g fits s
              → get_elem? pixels (spot width height maze g fits s) ≡ some old
              → get_elem? p.pixels (spot width height maze g fits s)
                ≡ some (paint_type (cell_at maze s.i s.j) old))
          × ((k : ℕ)
              → ((s : Spot)
                  → InMaze width height maze g fits s
                  → spot width height maze g fits s ≢ k)
              → get_elem? p.pixels k ≡ get_elem? pixels k)
          × ((i j : ℕ)
              → i < maze.height
              → j < maze.width
              → 0 < g.cell_side
              → cell_at maze i j ≡ start
              → (p.pos_x ≡ j) × (p.pos_y ≡ i))
          × ((i j : ℕ)
              → i < maze.height
              → j < maze.width
              → 0 < g.cell_side
              → cell_at maze i j ≡ end
              → (p.end_x ≡ j) × (p.end_y ≡ i)))
        (draw_picture width maze g pixels)
  unfolding draw_picture
  draw_picture_lem =
      Returns-map
        (for_loop_from_zero (λ i. Done i 0 0 0)
          (λ i. for_loop maze.width 0 (λ j.
            for_loop g.cell_side 0 (λ a. for_loop g.cell_side 0 (draw_pixel width maze g i j a))))
          maze.height (λ i q hi k. cells_lem i q hi k)
          (record { pixels = pixels; pos_x = 0; pos_y = 0; end_x = 0; end_y = 0 })
          (record {
            touches =
                Touches-nothing (spot width height maze g fits)
                  (λ s. paint_type (cell_at maze s.i s.j)) (λ s l. absurd (omega arith)) pixels;
            starts = λ s l. absurd (omega arith);
            ends = λ s l. absurd (omega arith);
          }))
        (λ p d. (
          d.touches.size ∙ room,
          λ s old h e. d.touches.inside s old (h, inl h.0) e,
          λ k away. d.touches.outside k (λ s l. away s l.0),
          λ i j hi hj hc.
              d.starts (record { i = i; j = j; a = 0; b = 0 }) ((hi, hj, hc, hc), inl hi),
          λ i j hi hj hc. d.ends (record { i = i; j = j; a = 0; b = 0 }) ((hi, hj, hc, hc), inl hi),
        ))
