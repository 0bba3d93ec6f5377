-- ===== src/Tests/Applications.antt =====
-- `UefiMain` of Application/Maze/Maze.c on a screen of nine times seven pixels.
use uefi_game.Prelude.{
  ℕ, ◌*◌, ◌/◌, ◌≡◌, refl, sym, ap, ◌∙◌, some, List, [], ◌∷◌, arith, ◌==◌, if◌then◌else◌, length,
  replicate, length-replicate, ok, Returns, Returns-map,
}
use uefi_game.Pixels.{Pixel, zero_pixel}
use uefi_game.Console.{up, right}
use uefi_game.Disk.{Firmware, FileData, read_file}
use uefi_game.Maze.Picture.{Geometry, geometry}
use uefi_game.Maze.Actor.{parse_actor}
use uefi_game.Maze.Actor.Painting.{parse_actor_lem}
use uefi_game.Maze.Walk.{KeyPress}
use uefi_game.Maze.Main.{labyrinth_txt, sprite_txt, Outcome, boots, uefi_main}
use uefi_game.Maze.Main.Preparing.{Playable}
use uefi_game.Maze.Main.Ending.{Allowed, uefi_main_lem, uefi_main_boots}
use uefi_game.Tests.Labyrinths.{
  two_rooms, level, cell_pool, parse_two_rooms, hat, hat_first, hat_known, shape, geometry-level,
  one_start, one_end, level-IsClosed, first_pos, last_pos, way,
}

-- A second volume with both files, which are told apart by the length of their names.
abbrev volume : Firmware
volume = record {
  locate_handles = some (7 ∷ 8 ∷ []);
  file_system = λ h. some h;
  open_volume = λ v. some v;
  open_file = λ root name. some (length name);
  file_size = λ file. some (if file == 13 then 15 else 4);
  allocate_pool = λ n. replicate n 9;
  read_bytes = λ file n. if file == 13 then two_rooms else hat;
  close_status = λ root. 0;
}

abbrev labyrinth : FileData
labyrinth = record { word_list = two_rooms; size = 15; status = 0 }

abbrev sprite : FileData
sprite = record { word_list = hat; size = 4; status = 0 }

abbrev pixel_pool : ℕ → List Pixel
pixel_pool bytes = replicate (bytes / 4) zero_pixel

read_labyrinth : read_file volume labyrinth_txt ≡ ok labyrinth
unfolding read_file
read_labyrinth = refl

read_sprite : read_file volume sprite_txt ≡ ok sprite
unfolding read_file
read_sprite = refl

pixel_room : (n : ℕ) → length (pixel_pool (4 * n)) ≡ n
pixel_room n = let e : 4 * n / 4 ≡ n = omega arith in rw e (length-replicate n zero_pixel)

paints :
    (place : Geometry) (s : List Pixel)
    → geometry 9 7 level ≡ ok place
    → length s ≡ place.cell_side * place.cell_side
    → Returns
        (λ (r : List Pixel). length r ≡ place.cell_side * place.cell_side)
        (parse_actor hat 4 s place.cell_side)
paints place s e size =
    let f : ok shape ≡ ok place = sym geometry-level ∙ e in
    let side : place.cell_side ≡ 2 = cc in
    rw side (
      Returns-map
        (parse_actor_lem hat 2 2 refl hat_first (omega arith) (omega arith) s (omega arith)
          (omega arith) (size ∙ ap (λ (n : ℕ). n * n) side) hat_known)
        (λ r h. h.0))

playable : Playable volume cell_pool pixel_pool 9 7 labyrinth sprite level first_pos last_pos
playable = record {
  some_size = omega arith;
  pool = λ n h. pixel_room n;
  labyrinth_there = read_labyrinth;
  sprite_there = read_sprite;
  described = parse_two_rooms;
  closed = level-IsClosed;
  wide = omega arith;
  high = omega arith;
  one_start = one_start;
  one_end = one_end;
  from_inside = (omega arith, omega arith);
  from_start = refl;
  to_inside = (omega arith, omega arith);
  to_end = refl;
  paints = paints;
}

abbrev options : List ℕ
options = 10 ∷ 11 ∷ 12 ∷ 13 ∷ []

abbrev pressed : List KeyPress
pressed = record { scan_code = up; status = 0 } ∷ record { scan_code = right; status = 5 } ∷ []

run : uefi_main volume cell_pool pixel_pool (some (9, 7)) options pressed ≡ ok (boots 13 5)
unfolding uefi_main
run = refl

uefi_main_lem_example :
    Returns
      (Allowed volume cell_pool pixel_pool 9 7 labyrinth sprite level first_pos last_pos playable
        options)
      (uefi_main volume cell_pool pixel_pool (some (9, 7)) options pressed)
uefi_main_lem_example =
    uefi_main_lem volume cell_pool pixel_pool 9 7 labyrinth sprite level first_pos last_pos playable
      options 13 pressed refl

uefi_main_boots_example :
    (keys : List KeyPress) × Returns
      (λ (r : Outcome ℕ). (status : ℕ) × (r ≡ boots 13 status))
      (uefi_main volume cell_pool pixel_pool (some (9, 7)) options keys)
uefi_main_boots_example =
    uefi_main_boots volume cell_pool pixel_pool 9 7 labyrinth sprite level first_pos last_pos
      playable options 13 refl way
