-- ===== src/Tests/Mazes.antt =====
-- Application/BootManager2D/src/DemoGame.c: small maps.
use uefi_game.Prelude.{
  ◌^◌, ℕ, zero, suc, ◌+◌, ◌*◌, ◌≡◌, ◌≤◌, ◌<◌, refl, arith, inl, true, false, List, [], ◌∷◌, some,
  some_inj, Result, ok, fault, Returns, Returns-ok, length, replicate, get_elem?, length-replicate,
}
use uefi_game.Pixels.{Pixel, zero_pixel}
use uefi_game.BootManager.Placement.{Textures, is_escape, place_boot_entries}
use uefi_game.BootManager.Placement.Places.{
  Placed, place_boot_entries_lem, place_boot_entries_fault,
}
use uefi_game.BootManager.Walk.{
  right, KeyPress, Walk, Maze, cell_side, escape_entry, step, walk_loop,
}
use uefi_game.BootManager.Walk.Moves.{IsValid}
use uefi_game.BootManager.Walk.Paths.{Drawable, Stepped, step_lem}
use uefi_game.BootManager.Walk.Session.{here, next, Leads, Ending, walk_loop_lem}
use uefi_game.BootManager.Walk.Ways.{walk_loop_boots}

abbrev tile : List Pixel
tile = replicate (cell_side * cell_side) zero_pixel

abbrev zero_pool : ℕ → List Pixel
zero_pool bytes = replicate (cell_side * cell_side) zero_pixel

-- Free, free, the first entry.
abbrev lane : Maze
lane = record { map = 0 ∷ 0 ∷ 2 ∷ []; map_width = 3; map_height = 1; bootable_start = 2 }

abbrev tiles : List (List Pixel)
tiles = tile ∷ tile ∷ tile ∷ []

lane-IsValid : IsValid lane
lane-IsValid = record {
  size = refl;
  small = omega arith;
  wide = omega arith;
  tall = omega arith;
  textured = omega arith;
}

tile_size : cell_side * cell_side ≤ length tile
tile_size = omega (arith, length-replicate (cell_side * cell_side) zero_pixel)

tiles_lem :
    (v : ℕ)
    → v < 3
    → (image : List Pixel) × (get_elem? tiles v ≡ some image)
      × (cell_side * cell_side ≤ length image)
tiles_lem zero h = (tile, refl, tile_size)
tiles_lem (suc zero) h = (tile, refl, tile_size)
tiles_lem (suc (suc zero)) h = (tile, refl, tile_size)
tiles_lem (suc (suc (suc v))) h = absurd (omega arith)

lane_low : (k v : ℕ) → get_elem? lane.map k ≡ some v → v < 3
lane_low zero v e = omega (arith, some_inj e)
lane_low (suc zero) v e = omega (arith, some_inj e)
lane_low (suc (suc zero)) v e = omega (arith, some_inj e)
lane_low (suc (suc (suc k))) v e = absurd cc

lane_drawable : Drawable lane zero_pool tiles tile 0 0
lane_drawable = record {
  textured = λ k v e. tiles_lem v (lane_low k v e);
  sprite_size = tile_size;
  room = refl;
}

abbrev at_left : Walk
at_left = record { cur_x = 0; cur_y = 0; escaped = false; entry_to_boot = escape_entry; drawn = [] }

abbrev keys : List KeyPress
keys = record { scan_code = right; stale = 0 } ∷ record { scan_code = right; stale = 0 } ∷ []

lane-Leads : Leads lane (0, 0) 0
lane-Leads = record {
  end = (1, 0);
  path = next here right refl refl;
  code = right;
  cell = (2, 0);
  value = 2;
  beside = refl;
  holds = refl;
  above = omega arith;
  entry = refl;
}

step_lem_example :
    Returns
      (Stepped lane zero_pool tiles tile 0 0 (record { scan_code = right; stale = 5 }) at_left)
      (step lane zero_pool tiles tile 0 0 (record { scan_code = right; stale = 5 }) at_left)
step_lem_example =
    step_lem lane zero_pool tiles tile 0 0 lane-IsValid lane_drawable
      (record { scan_code = right; stale = 5 }) at_left (omega arith)

walk_loop_lem_example :
    Returns
      (Ending lane zero_pool tiles tile 0 0 (0, 0))
      (walk_loop lane zero_pool tiles tile 0 0 keys at_left)
walk_loop_lem_example =
    walk_loop_lem lane zero_pool tiles tile 0 0 lane-IsValid lane_drawable (0, 0) keys at_left
      (omega arith) (omega arith, (omega arith, tt)) (inl (here, refl))

walk_loop_boots_example :
    (keys : List KeyPress) × Returns
      (λ (g' : Walk). (g'.escaped ≡ true) × (g'.entry_to_boot ≡ 0))
      (walk_loop lane zero_pool tiles tile 0 0 keys at_left)
walk_loop_boots_example =
    walk_loop_boots lane zero_pool tiles tile 0 0 lane-IsValid lane_drawable (0, 0) 0 at_left
      (omega arith) (refl, refl) lane-Leads

-- A map of twelve escapes; a texture is a number here.
abbrev escape_map : List ℕ
escape_map = replicate 12 10

abbrev make : ℕ → ℕ → Textures ℕ → Result (Textures ℕ)
make e c t = ok (record { images = t.images; count = t.count + 1 })

abbrev eleven : Textures ℕ
eleven = record { images = []; count = 11 }

abbrev Anything : Textures ℕ → Type 0
Anything t = Unit {0}

makes :
    (j e c : ℕ) (t : Textures ℕ)
    → get_elem? (0 ∷ 1 ∷ []) j ≡ some e
    → is_escape 11 c ≡ true
    → Anything t
    → t.count < 2 ^ 60
    → Returns (λ (t' : Textures ℕ). Anything t' × (t'.count ≡ t.count + 1)) (make e c t)
makes j e c t at h g few = Returns-ok (tt, refl)

escape_low : (n k c : ℕ) → get_elem? (replicate n 10) k ≡ some c → c < 11
escape_low zero k c e = absurd cc
escape_low (suc n) zero c e = omega (arith, some_inj e)
escape_low (suc n) (suc k) c e = escape_low n k c e

-- The draws are 5 and 16, and the escapes are counted down the columns.
place_two :
    place_boot_entries make (λ i. 5 + 11 * i) 4 3 (0 ∷ 1 ∷ []) 2 escape_map eleven
    ≡ ok (record {
      map = 10 ∷ 10 ∷ 12 ∷ 10 ∷ 10 ∷ 10 ∷ 10 ∷ 10 ∷ 10 ∷ 11 ∷ 10 ∷ 10 ∷ [];
      textures = record { images = []; count = 13 };
      escape_count = 11;
    })
unfolding place_boot_entries
place_two = refl

place_boot_entries_lem_example :
    Returns
      (Placed make (λ i. 5 + 11 * i) 4 3 (0 ∷ 1 ∷ []) Anything 11 makes escape_map 2)
      (place_boot_entries make (λ i. 5 + 11 * i) 4 3 (0 ∷ 1 ∷ []) 2 escape_map eleven)
unfolding place_boot_entries
place_boot_entries_lem_example =
    place_boot_entries_lem make (λ i. 5 + 11 * i) 4 3 (0 ∷ 1 ∷ []) Anything 11 makes escape_map 2
      eleven tt refl refl (omega arith) (omega arith) (escape_low 12) refl (omega arith)
      (omega arith)

place_boot_entries_fault_example :
    place_boot_entries make (λ i. i) 4 3 (0 ∷ []) 13 escape_map eleven ≡ fault
place_boot_entries_fault_example =
    place_boot_entries_fault make (λ i. i) 4 3 (0 ∷ []) 13 escape_map eleven (omega arith)
