-- ===== src/BootManager3D/Floor.antt =====
-- Application/BootManager3D/src/DemoGame.c, `Game`: the floor and the ceiling, row by row.
pub mod Halves
use uefi_game.Prelude.{
  ◌>>=◌, ℕ, ◌+◌, ◌-◌, ◌*◌, ◌/◌, ◌%◌, ◌^◌, List, Result, ok, load, store, for_loop,
}
use uefi_game.Doubles.{Doubles}
use uefi_game.Pixels.{Pixel}
use uefi_game.BootManager3D.View.{image_width, image_height, tex_width, tex_height, View, darken}

-- `#define floorNum 0` and `#define ceilNum 1`
abbrev pub floor_num : ℕ
floor_num = 0

abbrev pub ceil_num : ℕ
ceil_num = 1

-- What the inner loop changes.
pub record Casting (d : Doubles) : Type 0 where
  pub floor_x : d.Double
  pub floor_y : d.Double
  pub screen : List Pixel

module _ (d : Doubles) where
  open d use {Double, decimal, of_int, of_unsigned, to_int, plus, minus, times, over}

  -- The distance of row `y`, from `int p = y - ImageHeight / 2`.
  pub row_distance : ℕ → Double
  row_distance y =
      over (times (decimal 5 1) (of_unsigned image_height))
        (of_int ((y + 2 ^ 32 - image_height / 2) % 2 ^ 32))

  -- `(int) (size * (floor - cell)) & (size - 1)`
  pub texel : ℕ → Double → ℕ
  texel size v = to_int (times (of_int size) (minus v (of_int (to_int v)))) % size

  pub cast_pixel : List (List Pixel) → ℕ → Double → Double → ℕ → Casting d → Result (Casting d)
  unfolding texel
  cast_pixel textures y floor_step_x floor_step_y x c = do
    let at = texel tex_height c.floor_y * tex_width + texel tex_width c.floor_x
    floor_image ← load textures floor_num
    floor_color ← load floor_image at
    lower ← store c.screen (y * image_width + x) (darken floor_color)
    ceil_image ← load textures ceil_num
    ceil_color ← load ceil_image at
    upper ← store lower ((image_height - y - 1) * image_width + x) (darken ceil_color)
    ok (record {
      floor_x = plus c.floor_x floor_step_x;
      floor_y = plus c.floor_y floor_step_y;
      screen = upper;
    })

  pub cast_row : List (List Pixel) → View d → ℕ → List Pixel → Result (List Pixel)
  unfolding for_loop row_distance cast_pixel
  cast_row textures v y screen = do
    let ray_dir_x0 = minus v.dir_x v.plane_x
    let ray_dir_y0 = minus v.dir_y v.plane_y
    let ray_dir_x1 = plus v.dir_x v.plane_x
    let ray_dir_y1 = plus v.dir_y v.plane_y
    let distance = row_distance y
    let floor_step_x = over (times distance (minus ray_dir_x1 ray_dir_x0)) (of_unsigned image_width)
    let floor_step_y = over (times distance (minus ray_dir_y1 ray_dir_y0)) (of_unsigned image_width)
    c ← for_loop image_width 0 (cast_pixel textures y floor_step_x floor_step_y) (record {
      floor_x = plus v.pos_x (times distance ray_dir_x0);
      floor_y = plus v.pos_y (times distance ray_dir_y0);
      screen = screen;
    })
    ok c.screen

  unfoldable pub cast_floor : List (List Pixel) → View d → List Pixel → Result (List Pixel)
  unfolding for_loop cast_row
  cast_floor textures v = for_loop image_height 0 (cast_row textures v)
