-- ===== src/BootManager/Walk.antt =====
-- Application/BootManager2D/src/DemoGame.c, `Game`: the walk through the maze. A key press comes
-- with the value that the uninitialised `MapValue` of that pass happens to hold. `Blt` appends what
-- it draws; the list of key presses ends where the player stops pressing keys.
pub mod Moves
pub mod Paths
pub mod Session
pub mod Ways
pub mod Game
use uefi_game.Prelude.{
  ℕ, ◌+◌, ◌-◌, ◌*◌, ◌/◌, ◌^◌, Bool, true, false, not, ◌&&◌, ◌||◌, ◌==◌, ltb, leb, if◌then◌else◌,
  wrap, List, [], ◌∷◌, ◌++◌, Result, ok, ◌>>=◌, load, for_loop,
}
use uefi_game.Pixels.{Pixel}
pub use uefi_game.Console.{ScanCode, up, down, left, right, esc, other, Blt}
use uefi_game.BootManager.Graphics.{combine_with_transparency}

pub record KeyPress : Type 0 where
  pub scan_code : ScanCode
  pub stale : ℕ

pub record Walk : Type 0 where
  pub cur_x : ℕ
  pub cur_y : ℕ
  pub escaped : Bool
  pub entry_to_boot : ℕ
  pub drawn : List Blt

-- The variables that the `switch` sets.
pub record Look : Type 0 where
  pub new_x : ℕ
  pub new_y : ℕ
  pub map_value : ℕ
  pub leaves : Bool

-- `#define ESCAPE_ENTRY MAX_UINTN`
abbrev pub escape_entry : ℕ
escape_entry = 2 ^ 64 - 1

unfoldable pub cell_side : ℕ
cell_side = 32

pub record Maze : Type 0 where
  pub map : List ℕ
  pub map_width : ℕ
  pub map_height : ℕ
  pub bootable_start : ℕ

-- `MapHeight - 1` and `MapWidth - 1`, which wrap around at 0.
abbrev pub last : ℕ → ℕ
last n = wrap (n + 2 ^ 64 - 1)

module _ (maze : Maze) where
  open maze use {map, map_width, map_height, bootable_start}

  -- The part of a case behind its guard: read the map at `at`, and go there if it is free.
  pub try_cell : ℕ → ℕ → ℕ → ℕ → ℕ → Result Look
  try_cell at x y new_x new_y = do
    v ← load map (wrap at)
    let blocked = not (v == 0) && ltb v bootable_start
    ok (record {
      new_x = if blocked then x else new_x;
      new_y = if blocked then y else new_y;
      map_value = v;
      leaves = false;
    })

  pub look : ScanCode → ℕ → ℕ → ℕ → Result Look
  unfolding try_cell wrap
  look up stale x y =
      if y == 0
      then ok (record { new_x = x; new_y = y; map_value = stale; leaves = false })
      else try_cell ((y - 1) * map_width + x) x y x (y - 1)
  look down stale x y =
      if y == last map_height
      then ok (record { new_x = x; new_y = y; map_value = stale; leaves = false })
      else try_cell ((y + 1) * map_width + x) x y x (y + 1)
  look left stale x y =
      if x == 0
      then ok (record { new_x = x; new_y = y; map_value = stale; leaves = false })
      else try_cell (y * map_width + x - 1) x y (x - 1) y
  look right stale x y =
      if x == last map_width
      then ok (record { new_x = x; new_y = y; map_value = stale; leaves = false })
      else try_cell (y * map_width + x + 1) x y (x + 1) y
  look esc stale x y = ok (record { new_x = x; new_y = y; map_value = stale; leaves = true })
  look other stale x y = ok (record { new_x = x; new_y = y; map_value = stale; leaves = false })

  -- `Textures[Map[y * MapWidth + x]]`
  pub cell_image : List (List Pixel) → ℕ → ℕ → Result (List Pixel)
  cell_image textures x y = do cell ← load map (wrap (y * map_width + x)); load textures cell

  module _ (zero_pool : ℕ → List Pixel) (textures : List (List Pixel)) (sprite : List Pixel)
      (width_margin height_margin : ℕ) where
    abbrev blt : List Pixel → ℕ → ℕ → Blt
    blt image x y = record {
      image = image;
      to_x = wrap (x * cell_side + width_margin);
      to_y = wrap (y * cell_side + height_margin);
    }

    -- The sprite over the image of a cell.
    pub with_sprite : List Pixel → Result (List Pixel)
    with_sprite image = combine_with_transparency zero_pool sprite image cell_side cell_side

    -- The two copies when the player moves.
    pub redraw : ℕ → ℕ → ℕ → ℕ → List Blt → Result (List Blt)
    redraw x y new_x new_y drawn = do
      behind ← cell_image textures x y
      under ← cell_image textures new_x new_y
      combined ← with_sprite under
      ok (drawn ++ (blt behind x y ∷ blt combined new_x new_y ∷ []))

    -- One pass of the loop.
    pub step : KeyPress → Walk → Result Walk
    step key g = do
      l ← look key.scan_code key.stale g.cur_x g.cur_y
      let moved = not (l.new_x == g.cur_x) || not (l.new_y == g.cur_y)
      drawn ← if moved then redraw g.cur_x g.cur_y l.new_x l.new_y g.drawn else ok g.drawn
      let boots = leb bootable_start l.map_value
      ok (record {
        cur_x = l.new_x;
        cur_y = l.new_y;
        escaped = if boots then true else l.leaves;
        entry_to_boot = if boots then l.map_value - bootable_start else g.entry_to_boot;
        drawn = drawn;
      })

    unfoldable pub walk_loop : List KeyPress → Walk → Result Walk
    walk_loop [] g = ok g
    walk_loop (key ∷ keys) g =
        let rest = step key g >>= walk_loop keys in if g.escaped then ok g else rest

    -- The first picture, cell by cell.
    pub draw_cell : ℕ → ℕ → List Blt → Result (List Blt)
    draw_cell y x drawn = do
      image ← cell_image textures x y
      shown ← if x == 1 && y == 17 then with_sprite image else ok image
      ok (drawn ++ (blt shown x y ∷ []))

    pub draw_maze : Result (List Blt)
    draw_maze = for_loop map_height 0 (λ y. for_loop map_width 0 (draw_cell y)) []

    -- From the first picture to the return, on a placed map.
    unfoldable pub walk_maze : List KeyPress → Result Walk
    walk_maze keys = do
      drawn ← draw_maze
      walk_loop keys (record {
        cur_x = 1;
        cur_y = 17;
        escaped = false;
        entry_to_boot = escape_entry;
        drawn = drawn;
      })
