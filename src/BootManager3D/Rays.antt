-- ===== src/BootManager3D/Rays.antt =====
-- Application/BootManager3D/src/DemoGame.c, `Game`: the ray of a column of the screen, from cell to
-- cell until it meets one with a positive value. The loop takes fuel; `none` says that it did not
-- suffice.
pub mod Ends
use uefi_game.Prelude.{
  ℕ, zero, suc, ◌+◌, ◌-◌, ◌*◌, ◌%◌, ◌^◌, Bool, ◌&&◌, Option, none, some, ltb, if◌then◌else◌, Result,
  ok, ◌>>=◌,
}
use uefi_game.Doubles.{Doubles}
use uefi_game.BootManager3D.View.{image_width, View, Level, cell_at}

pub record Ray (d : Doubles) : Type 0 where
  pub ray_dir_x : d.Double
  pub ray_dir_y : d.Double
  pub delta_dist_x : d.Double
  pub delta_dist_y : d.Double
  pub step_x : ℕ
  pub step_y : ℕ
  pub map_x : ℕ
  pub map_y : ℕ
  pub side_dist_x : d.Double
  pub side_dist_y : d.Double
  pub side : ℕ

-- The bits of `-1`.
abbrev pub minus_one : ℕ
minus_one = 2 ^ 32 - 1

-- `> 0` on an `INTN`.
abbrev pub is_positive : ℕ → Bool
is_positive cell = ltb 0 cell && ltb cell (2 ^ 63)

module _ (d : Doubles) where
  open d use {Double, decimal, of_int, of_unsigned, to_int, plus, minus, times, over, less, equal}

  pub abs_d : Double → Double
  abs_d a = if less a (of_int 0) then times (of_int minus_one) a else a

  pub delta_dist : Double → Double
  unfolding abs_d
  delta_dist dir =
      if equal dir (of_int 0) then of_unsigned 0xffffffff else abs_d (over (of_int 1) dir)

  -- The first distance to a side: to the one before, or to the one behind.
  pub side_dist : Double → Double → ℕ → Double → Double
  side_dist dir pos cell delta =
      if less dir (of_int 0)
      then times (minus pos (of_int cell)) delta
      else times (minus (plus (of_int cell) (decimal 10 1)) pos) delta

  pub step_of : Double → ℕ
  step_of dir = if less dir (of_int 0) then minus_one else 1

  -- The variables before the loop. The loop sets `side` before anything reads it.
  unfoldable pub start_ray : View d → ℕ → Ray d
  unfolding delta_dist side_dist step_of
  start_ray v x =
      let camera_x = minus (over (of_int (2 * x)) (of_unsigned image_width)) (of_int 1) in
      let dir_x = plus v.dir_x (times v.plane_x camera_x) in
      let dir_y = plus v.dir_y (times v.plane_y camera_x) in
      let map_x = to_int v.pos_x in
      let map_y = to_int v.pos_y in
      let delta_x = delta_dist dir_x in
      let delta_y = delta_dist dir_y in
      record {
        ray_dir_x = dir_x;
        ray_dir_y = dir_y;
        delta_dist_x = delta_x;
        delta_dist_y = delta_y;
        step_x = step_of dir_x;
        step_y = step_of dir_y;
        map_x = map_x;
        map_y = map_y;
        side_dist_x = side_dist dir_x v.pos_x map_x delta_x;
        side_dist_y = side_dist dir_y v.pos_y map_y delta_y;
        side = 0;
      }

  -- To the next cell.
  pub next_cell : Ray d → Ray d
  next_cell r =
      if less r.side_dist_x r.side_dist_y
      then record r {
        side_dist_x = plus r.side_dist_x r.delta_dist_x;
        map_x = (r.map_x + r.step_x) % 2 ^ 32;
        side = 0;
      }
      else record r {
        side_dist_y = plus r.side_dist_y r.delta_dist_y;
        map_y = (r.map_y + r.step_y) % 2 ^ 32;
        side = 1;
      }

  -- `while (hit == 0)`
  unfoldable pub walk_ray : Level → ℕ → Ray d → Result (Option (Ray d))
  unfolding next_cell cell_at
  walk_ray level zero r = ok none
  walk_ray level (suc fuel) r =
      let next = next_cell r in
      let rest = walk_ray level fuel next in
      cell_at level next.map_y next.map_x >>= λ cell.
      if is_positive cell then ok (some next) else rest
