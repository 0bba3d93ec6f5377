-- ===== src/Maze/Main/Preparing.antt =====
-- `UefiMain`, up to the loop on the keys.
use uefi_game.Prelude.{
  ℕ, ◌+◌, ◌*◌, ◌/◌, ◌%◌, ◌^◌, ◌≤◌, ◌<◌, ◌≡◌, refl, ◌∙◌, inl, inr, true, List, arith, ltb, lt→ltb,
  length, length-set, get_elem?-of_lt, get_or-of_get_elem?, ok, Returns, Returns-ok, store_lem,
  for_loop_from_zero,
}
use native.Mathlib.Nat.{le-div_iff_mul-le}
use uefi_game.Pixels.{Pixel, set_rgb}
use uefi_game.Disk.{Firmware, FileData}
use uefi_game.Maze.Level.{MazeCellType, Maze, empty, start, end, parse_maze_file}
use uefi_game.Maze.Actor.{parse_actor}
use uefi_game.Maze.Picture.{Geometry, geometry}
use uefi_game.Maze.Picture.Layout.{Largest, geometry_lem}
use uefi_game.Maze.Picture.Spots.{Single}
use uefi_game.Maze.Picture.Drawing.{draw_picture_lem}
use uefi_game.Maze.Walk.Session.{Pos, Holds, Inside, IsClosed}
use uefi_game.Maze.Main.{
  read_file, labyrinth_txt, sprite_txt, clear_pixel, Buffers, clear_both, Scene, prepare,
}

clear_pixel_lem :
    (n i : ℕ) (s : List Pixel)
    → i < n
    → length s ≡ n
    → Returns (λ (t : List Pixel). length t ≡ n) (clear_pixel i s)
unfolding clear_pixel
clear_pixel_lem n i s h e =
    let (a, at) = get_elem?-of_lt s i (omega arith) in
    rw (at, store_lem s i (set_rgb 0 0 0 a) (omega arith))
      (Returns-ok (length-set s i (set_rgb 0 0 0 a) ∙ e))

times_comm : (a b : ℕ) → a * b ≡ b * a
times_comm a b = grind arith

-- A square whose side is below both of two others is no larger than their product.
square_le : (c a b : ℕ) → c ≤ a → c ≤ b → c * c ≤ a * b
square_le c a b h k = grind arith

times_pos : (c m n : ℕ) → 0 < m → c * m ≤ n → c ≤ n
times_pos c m n h k = grind arith

div_pos : (n m : ℕ) → 0 < m → m ≤ n → 0 < n / m
div_pos n m h k = let e : 1 * m ≤ n = omega arith in (le-div_iff_mul-le h).1 e

abbrev Square : ℕ → Buffers → Type 0
Square n b = (length b.empty_cell ≡ n) × (length b.actor ≡ n)

clear_both_lem : (n i : ℕ) (b : Buffers) → i < n → Square n b → Returns (Square n) (clear_both i b)
unfolding clear_both
clear_both_lem n i b h e =
    let p = clear_pixel_lem n i b.empty_cell h e.0 in
    let q = clear_pixel_lem n i b.actor h e.1 in
    rw (p.returns, q.returns) (Returns-ok (p.holds, q.holds))

module _ (fw : Firmware) (maze_pool : ℕ → List MazeCellType) (pixel_pool : ℕ → List Pixel)
    (hor ver : ℕ) (labyrinth sprite : FileData) (maze : Maze) where
  abbrev pub width : ℕ
  width = hor % 2 ^ 16

  abbrev pub height : ℕ
  height = ver % 2 ^ 16

  -- A screen of this resolution, with both files on the volume: the first one describes `maze`, a
  -- closed one with one start, at `from`, and one end, at `to`, and with cells for at least one
  -- pixel; the sprite can be painted in a cell.
  pub record Playable (from to : Pos) : Type 0 where
    pub some_size : width * height < 2 ^ 31
    pub pool : (n : ℕ) → n < 2 ^ 32 → length (pixel_pool (4 * n)) ≡ n
    pub labyrinth_there : read_file fw labyrinth_txt ≡ ok labyrinth
    pub sprite_there : read_file fw sprite_txt ≡ ok sprite
    pub described : parse_maze_file maze_pool labyrinth.word_list labyrinth.size ≡ ok maze
    pub closed : IsClosed maze
    pub wide : maze.width ≤ width
    pub high : maze.height ≤ height
    pub one_start : Single start maze
    pub one_end : Single end maze
    pub from_inside : Inside maze from
    pub from_start : Holds maze from start
    pub to_inside : Inside maze to
    pub to_end : Holds maze to end
    pub paints :
        (place : Geometry) (s : List Pixel)
        → geometry width height maze ≡ ok place
        → length s ≡ place.cell_side * place.cell_side
        → Returns
            (λ (r : List Pixel). length r ≡ place.cell_side * place.cell_side)
            (parse_actor sprite.word_list sprite.size s place.cell_side)

  module _ (from to : Pos) (h : Playable from to) where
    -- The scene shows this maze, the player at its start, and its end.
    abbrev pub Ready : Scene → Type 0
    Ready s =
        (s.maze ≡ maze)
        × (s.picture.pos_x ≡ from.x)
        × (s.picture.pos_y ≡ from.y)
        × (s.picture.end_x ≡ to.x)
        × (s.picture.end_y ≡ to.y)

    pool_lem : (a b : ℕ) → a * b < 2 ^ 31 → length (pixel_pool (4 * a * b)) ≡ a * b
    pool_lem a b small =
        let e : 4 * a * b ≡ 4 * (a * b) = grind arith in rw e (h.pool (a * b) (omega arith))

    side_small :
        (place : Geometry)
        → Largest width height maze place
        → place.cell_side * place.cell_side < 2 ^ 31
    side_small place l =
        let a =
          times_pos place.cell_side maze.width width (omega (arith, h.from_inside.0))
            (omega (arith, l.fits.wide)) in
        let b =
          times_pos place.cell_side maze.height height (omega (arith, h.from_inside.1))
            (omega (arith, l.fits.high)) in
        omega (arith, square_le place.cell_side width height a b, h.some_size)

    side_pos : (place : Geometry) → Largest width height maze place → 0 < place.cell_side
    side_pos place l = elim l.side [
      | inl e ↦ rw e (div_pos width maze.width (omega (arith, h.from_inside.0)) h.wide)
      | inr e ↦ rw e (div_pos height maze.height (omega (arith, h.from_inside.1)) h.high)
    ]

    pub prepare_lem : Returns Ready (prepare fw maze_pool pixel_pool (hor, ver))
    unfolding prepare
    prepare_lem =
        let size = width * height in
        let fits : ltb size (2 ^ 31) ≡ true = lt→ltb size (2 ^ 31) h.some_size in
        let room : length (pixel_pool (4 * width * height)) ≡ size =
          pool_lem width height h.some_size in
        let black =
          for_loop_from_zero (λ i (s : List Pixel). length s ≡ size) clear_pixel size
            (λ i s hi e. clear_pixel_lem size i s hi e) (pixel_pool (4 * width * height)) room in
        let place =
          geometry_lem width height maze (omega (arith, h.from_inside.0))
            (omega (arith, h.from_inside.1)) in
        let picture =
          draw_picture_lem width height maze place.out place.holds.fits h.closed.cells h.one_start
            h.one_end (black.out) (black.holds ∙ times_comm width height) in
        let side = place.out.cell_side in
        let square = side * side in
        let fresh : length (pixel_pool (4 * side * side)) ≡ square =
          pool_lem side side (side_small place.out place.holds) in
        let buffers =
          for_loop_from_zero (λ i. Square square) clear_both square
            (λ i b hi e. clear_both_lem square i b hi e)
            (record {
              empty_cell = pixel_pool (4 * side * side);
              actor = pixel_pool (4 * side * side);
            })
            (fresh, fresh) in
        let actor = h.paints place.out buffers.out.actor place.returns buffers.holds.1 in
        rw
          (
            fits, black.returns, h.labyrinth_there, h.described, place.returns, picture.returns,
            buffers.returns, h.sprite_there, actor.returns,
          )
          (Returns-ok (
            let pos =
              picture.holds.3 from.y from.x h.from_inside.1 h.from_inside.0
                (side_pos place.out place.holds)
                (get_or-of_get_elem? maze.maze_cells (from.y * maze.width + from.x) empty
                  h.from_start) in
            let goal =
              picture.holds.4 to.y to.x h.to_inside.1 h.to_inside.0 (side_pos place.out place.holds)
                (get_or-of_get_elem? maze.maze_cells (to.y * maze.width + to.x) empty h.to_end) in
            (refl, pos.0, pos.1, goal.0, goal.1)))
