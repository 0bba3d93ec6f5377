-- ===== src/BootManager3D/Game.antt =====
-- Application/BootManager3D/src/DemoGame.c, `Game`: a frame of the screen, what a key does, and the
-- loop. `Blt` appends what it draws; the list of keys ends where the player stops pressing keys.
pub mod Frames
pub mod Moves
pub mod Session
pub mod Placed
pub mod Whole
use uefi_game.Prelude.{
  ℕ, ◌+◌, ◌-◌, ◌*◌, ◌/◌, ◌^◌, Bool, true, false, ◌||◌, Option, List, [], ◌∷◌, ◌++◌, leb, ◌==◌,
  if◌then◌else◌, wrap, Result, ok, ◌>>=◌, or_fault, for_loop,
}
use uefi_game.Efi.{Efi}
use uefi_game.Doubles.{Doubles}
use uefi_game.Pixels.{Pixel}
use uefi_game.Console.{ScanCode, up, down, left, right, esc, other, Blt}
use uefi_game.BootManager.Files.{BootServices}
use uefi_game.BootManager.Entries.{BootEntry}
use uefi_game.BootManager.Placement.{Textures, place_boot_entries}
use uefi_game.BootManager.Walk.{escape_entry}
use uefi_game.BootManager3D.Icons.{make_boot_entry_texture}
use uefi_game.BootManager3D.View.{image_width, image_height, View, Level, cell_at}
use uefi_game.BootManager3D.Floor.{cast_floor}
use uefi_game.BootManager3D.Walls.{draw_column}

-- The variables of the loop.
pub record Tour (d : Doubles) : Type 0 where
  pub view : View d
  pub screen : List Pixel
  pub ready_to_boot : Bool
  pub entry_to_boot : ℕ
  pub shown : List Blt

-- `(HorizontalResolution - ImageWidth) / 2`, on `UINTN`.
pub margin : ℕ → ℕ → ℕ
unfolding wrap
margin resolution size = wrap (resolution + 2 ^ 64 - size) / 2

-- `next == 0 || next >= bootable_start`: the second comparison is unsigned.
abbrev pub is_free : Level → ℕ → Bool
is_free level next = next == 0 || leb level.bootable_start next

-- The keys that end the game.
abbrev pub leaves : ScanCode → Bool
leaves esc = true
leaves up = false
leaves down = false
leaves left = false
leaves right = false
leaves other = false

module _ (d : Doubles) where
  open d use {Double, decimal, of_int, to_int, plus, minus, times, sin, cos, negate}

  abbrev pub move_speed : Double
  move_speed = decimal 5 2

  abbrev pub rot_speed : Double
  rot_speed = decimal 1 1

  -- The coordinate that the code looks at, ahead of the player.
  abbrev pub ahead : (Double → Double → Double) → Double → Double → Double
  ahead op pos dir = op pos (times dir (plus move_speed (decimal 5 2)))

  -- The coordinate that the player moves to.
  abbrev pub onward : (Double → Double → Double) → Double → Double → Double
  onward op pos dir = op pos (times dir move_speed)

  -- The cases `SCAN_UP`, with `+`, and `SCAN_DOWN`, with `-`.
  pub move : Level → (Double → Double → Double) → View d → Result (View d)
  unfolding cell_at
  move level op v = do
    next_y ← cell_at level (to_int (ahead op v.pos_y v.dir_y)) (to_int v.pos_x)
    next_x ← cell_at level (to_int v.pos_y) (to_int (ahead op v.pos_x v.dir_x))
    ok (record v {
      pos_y = if is_free level next_y then onward op v.pos_y v.dir_y else v.pos_y;
      pos_x = if is_free level next_x then onward op v.pos_x v.dir_x else v.pos_x;
    })

  -- The cases `SCAN_LEFT` and `SCAN_RIGHT`.
  unfoldable pub turn : Double → View d → View d
  turn angle v = record v {
    dir_x = minus (times v.dir_x (cos angle)) (times v.dir_y (sin angle));
    dir_y = plus (times v.dir_x (sin angle)) (times v.dir_y (cos angle));
    plane_x = minus (times v.plane_x (cos angle)) (times v.plane_y (sin angle));
    plane_y = plus (times v.plane_x (sin angle)) (times v.plane_y (cos angle));
  }

  -- `switch (Key.ScanCode)`
  pub act : Level → ScanCode → View d → Result (View d)
  unfolding move turn
  act level up v = move level plus v
  act level down v = move level minus v
  act level left v = ok (turn (negate rot_speed) v)
  act level right v = ok (turn rot_speed v)
  act level esc v = ok v
  act level other v = ok v

  -- Where `Game` puts the player.
  unfoldable pub first_view : View d
  first_view = record {
    pos_x = decimal 15 1;
    pos_y = decimal 175 1;
    dir_x = decimal 10 1;
    dir_y = decimal 0 1;
    plane_x = decimal 0 1;
    plane_y = decimal 66 2;
  }

  module _ (level : Level) (textures : List (List Pixel)) (fuel : ℕ) where
    -- The floor and the ceiling, and the walls in front of them.
    pub frame : View d → List Pixel → Result (List Pixel)
    unfolding for_loop cast_floor draw_column
    frame v screen = do
      lower ← cast_floor d textures v screen
      for_loop image_width 0 (draw_column d textures level fuel v) lower

    module _ (width_margin height_margin : ℕ) where
      -- A pass of the loop up to the waiting for a key.
      pub show : Tour d → Result (Tour d)
      unfolding frame
      show t = do
        screen ← frame t.view t.screen
        ok (record t {
          screen = screen;
          shown =
              t.shown
              ++ (record { image = screen; to_x = width_margin; to_y = height_margin } ∷ []);
        })

      -- A pass of the loop.
      pub step : ScanCode → Tour d → Result (Tour d)
      unfolding show act cell_at
      step key t = do
        drawn ← show t
        view ← act level key drawn.view
        here ← cell_at level (to_int view.pos_y) (to_int view.pos_x)
        let boots = leb level.bootable_start here
        ok (record drawn {
          view = view;
          ready_to_boot = if boots then true else leaves key;
          entry_to_boot = if boots then here - level.bootable_start else t.entry_to_boot;
        })

      unfoldable pub tour_loop : List ScanCode → Tour d → Result (Tour d)
      unfolding show step
      tour_loop [] t = let waits = show t in if t.ready_to_boot then ok t else waits
      tour_loop (key ∷ keys) t =
          let rest = step key t >>= tour_loop keys in if t.ready_to_boot then ok t else rest

  -- What the parameters of `Game` point to.
  pub record Setting : Type 0 where
    pub map : List ℕ
    pub map_width : ℕ
    pub map_height : ℕ
    pub textures : Textures (List Pixel)
    pub boot_entries : List BootEntry
    pub boot_entries_count : ℕ

  module _ (efi : Efi) (bs : BootServices) (zero_pool : ℕ → List Pixel)
      (pool : ℕ → List (List Pixel)) (realloc : ℕ → ℕ → List (List Pixel) → List (List Pixel))
      (self : ℕ) (rand : ℕ → ℕ) (fuel : ℕ) where
    -- `screen` is the resolution of the graphics protocol, and `none` if there is none. The filling of
    -- the screen at the end is left out.
    unfoldable pub tour_game : Setting → Option (ℕ × ℕ) → List ScanCode → Result (Tour d)
    unfolding margin first_view make_boot_entry_texture place_boot_entries tour_loop
    tour_game s screen keys = do
      placed ←
          place_boot_entries (make_boot_entry_texture efi bs zero_pool pool realloc self) rand
            s.map_width s.map_height s.boot_entries s.boot_entries_count s.map s.textures
      resolution ← or_fault screen
      tour_loop
          (record { map = placed.map; map_width = s.map_width; bootable_start = s.textures.count })
          placed.textures.images fuel (margin resolution.0 image_width)
          (margin resolution.1 image_height) keys
          (record {
            view = first_view;
            screen = zero_pool (4 * image_width * image_height);
            ready_to_boot = false;
            entry_to_boot = escape_entry;
            shown = [];
          })
