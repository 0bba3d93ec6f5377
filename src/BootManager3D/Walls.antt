-- ===== src/BootManager3D/Walls.antt =====
-- Application/BootManager3D/src/DemoGame.c, `Game`: the part of a wall that a column of the screen
-- shows. An `int` is its 32 bits and wraps around; a product or a sum with `ImageHeight` is a
-- `UINTN`, and `y * ImageWidth + x` is far below its bound.
pub mod Columns
use uefi_game.Prelude.{
  ◌>>=◌, ℕ, ◌+◌, ◌-◌, ◌*◌, ◌/◌, ◌%◌, ◌^◌, ◌&&◌, List, leb, ◌==◌, if◌then◌else◌, Result, ok,
  or_fault, load, store, for_loop,
}
use uefi_game.Doubles.{Doubles}
use uefi_game.Int32.{is_negative, extend, half}
use uefi_game.Pixels.{Pixel}
use uefi_game.BootManager3D.View.{
  image_width, image_height, tex_width, tex_height, View, Level, cell_at, darken,
}
use uefi_game.BootManager3D.Rays.{Ray, start_ray, walk_ray}

-- A sum as an `int`.
abbrev pub as_int : ℕ → ℕ
as_int n = n % 2 ^ 32

-- `-lineHeight / 2 + ImageHeight / 2`, 0 at least.
unfoldable pub draw_start : ℕ → ℕ
unfolding half
draw_start line_height =
    let start = as_int (half (as_int (2 ^ 32 - line_height)) + image_height / 2) in
    if is_negative start then 0 else start

-- `lineHeight / 2 + ImageHeight / 2`, which is compared as a `UINTN`.
unfoldable pub draw_end : ℕ → ℕ
unfolding half extend
draw_end line_height =
    let end = as_int (half line_height + image_height / 2) in
    if leb image_height (extend end) then image_height - 1 else end

-- `texWidth - texX - 1`
abbrev pub mirror : ℕ → ℕ
mirror tex_x = as_int (tex_width + 2 ^ 32 - tex_x + 2 ^ 32 - 1)

pub record Strip (d : Doubles) : Type 0 where
  pub tex_pos : d.Double
  pub screen : List Pixel

module _ (d : Doubles) where
  open d use {Double, decimal, of_int, of_unsigned, to_int, plus, minus, times, over, less, floor}

  pub perp_wall_dist : Ray d → Double
  perp_wall_dist r =
      if r.side == 0 then minus r.side_dist_x r.delta_dist_x else minus r.side_dist_y r.delta_dist_y

  -- `wallX` before the whole part is taken off.
  pub wall_at : View d → Ray d → Double
  unfolding perp_wall_dist
  wall_at v r =
      if r.side == 0
      then plus v.pos_y (times (perp_wall_dist r) r.ray_dir_y)
      else plus v.pos_x (times (perp_wall_dist r) r.ray_dir_x)

  unfoldable pub wall_x : View d → Ray d → Double
  unfolding wall_at
  wall_x v r = minus (wall_at v r) (floor (wall_at v r))

  pub column_tex_x : View d → Ray d → ℕ
  unfolding wall_x
  column_tex_x v r =
      let first = to_int (times (wall_x v r) (of_int tex_width)) in
      let second = if r.side == 0 && less (of_int 0) r.ray_dir_x then mirror first else first in
      if r.side == 1 && less r.ray_dir_y (of_int 0) then mirror second else second

  pub paint_pixel : List (List Pixel) → ℕ → ℕ → ℕ → Double → ℕ → ℕ → Strip d → Result (Strip d)
  unfolding extend
  paint_pixel textures side tex_num tex_x step x y s = do
    let tex_y = to_int s.tex_pos % tex_height
    image ← load textures (extend tex_num)
    color ← load image (extend (as_int (tex_y * tex_width + tex_x)))
    screen ← store s.screen (y * image_width + x) (if side == 1 then darken color else color)
    ok (record { tex_pos = plus s.tex_pos step; screen = screen })

  pub draw_wall : List (List Pixel) → Level → View d → ℕ → Ray d → List Pixel → Result (List Pixel)
  unfolding for_loop perp_wall_dist draw_start draw_end cell_at column_tex_x paint_pixel
  draw_wall textures level v x r screen = do
    let line_height = to_int (over (of_unsigned image_height) (perp_wall_dist r))
    let top = draw_start line_height
    let bottom = draw_end line_height
    cell ← cell_at level r.map_y r.map_x
    let step = over (times (decimal 10 1) (of_int tex_height)) (of_int line_height)
    let from =
        plus (minus (of_int top) (over (of_unsigned image_height) (of_int 2)))
          (over (of_int line_height) (of_int 2))
    s ←
        for_loop (bottom - top) top
          (paint_pixel textures r.side (as_int cell) (column_tex_x v r) step x)
          (record { tex_pos = times from step; screen = screen })
    ok s.screen

  -- A column of the screen; a ray that needs more than `fuel` steps counts as a fault.
  unfoldable pub draw_column :
      List (List Pixel) → Level → ℕ → View d → ℕ → List Pixel → Result (List Pixel)
  unfolding start_ray walk_ray draw_wall
  draw_column textures level fuel v x screen = do
    met ← walk_ray d level fuel (start_ray d v x)
    r ← or_fault met
    draw_wall textures level v x r screen
