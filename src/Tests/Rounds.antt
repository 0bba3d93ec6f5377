-- ===== src/Tests/Rounds.antt =====
-- Application/BootManager2D/src/DemoGame.c: a whole game, on a map of 18 rows of two cells with one
-- boot entry.
use uefi_game.Prelude.{
  lt-of_get_elem?, sym, refl, ◌%◌, ◌-◌, ◌⊎◌, inl, inr, ℕ, zero, suc, ◌*◌, ◌≤◌, ◌<◌, ◌≡◌, refl, some,
  List, [], ◌∷◌, ◌++◌, arith, length, replicate, get_elem?, some_inj, Returns,
}
use mathlib.Core.Path.{subst}
use uefi_game.Pixels.{Pixel}
use uefi_game.BootManager.Files.{BootServices}
use uefi_game.BootManager.Icons.Arrays.{AreTextures}
use uefi_game.BootManager.Entries.{BootEntry}
use uefi_game.BootManager.Icons.Making.{IsIcon}
use uefi_game.BootManager.Placement.{is_escape}
use uefi_game.BootManager.Walk.{right, KeyPress, cell_side}
use uefi_game.BootManager.Round.{Setting, maze_game}
use uefi_game.BootManager.Round.Ready.{IsReady}
use uefi_game.BootManager.Round.Entry.{Played, maze_game_lem}
use uefi_game.Tests.Views.{append-cases}
use uefi_game.Tests.Icons.{
  efi, disk, icon, pixels, pixels_room, arrays, grow, grow-Grows, tile, tile_size, entry,
  entry-IsIcon,
}

abbrev pub pairs : ℕ → ℕ → List ℕ
pairs zero v = []
pairs (suc n) v = v ∷ 0 ∷ pairs n v

-- Rows of two cells: twelve with an escape, and six that are free.
abbrev pub cells : List ℕ
cells = pairs 12 10 ++ pairs 6 0

at_pair : (n v k c : ℕ) → get_elem? (pairs n v) k ≡ some c → (c ≡ 0) ⊎ (k % 2 ≡ 0) × (c ≡ v)
at_pair zero v k c e = absurd cc
at_pair (suc n) v zero c e = inr (refl, sym (some_inj e))
at_pair (suc n) v (suc zero) c e = inl (sym (some_inj e))
at_pair (suc n) v (suc (suc k)) c e = elim (at_pair n v k c e) [
  | inl free ↦ inl free
  | inr (even, same) ↦ inr (omega arith, same)
]

pub cell_at : (k c : ℕ) → get_elem? cells k ≡ some c → (c ≡ 0) ⊎ (k % 2 ≡ 0) × (k < 24) × (c ≡ 10)
cell_at k c e = elim (append-cases (pairs 12 10) (pairs 6 0) k c e) [
  | inl h ↦ elim (at_pair 12 10 k c h) [
    | inl free ↦ inl free
    | inr (even, same) ↦ inr (even, let l = lt-of_get_elem? (pairs 12 10) k h in omega arith, same)
  ]
  | inr (le, h) ↦ elim (at_pair 6 0 (k - 24) c h) [
    | inl free ↦ inl free
    | inr (even, same) ↦ inl same
  ]
]

abbrev pub setting : List (List Pixel) → List BootEntry → List Pixel → Setting
setting images entries sprite = record {
  map = cells;
  map_width = 2;
  map_height = 18;
  textures = record { images = images; count = 11 };
  boot_entries = entries;
  boot_entries_count = 1;
  sprite = sprite;
}

tiles_full :
    (n k : ℕ) (image : List Pixel)
    → get_elem? (replicate n tile) k ≡ some image
    → cell_side * cell_side ≤ length image
tiles_full zero k image e = absurd cc
tiles_full (suc n) zero image e = rw (← some_inj e) (omega (arith, tile_size))
tiles_full (suc n) (suc k) image e = tiles_full n k image e

icons :
    (j : ℕ) (e : BootEntry)
    → get_elem? (entry ∷ []) j ≡ some e
    → IsIcon efi (disk icon) pixels arrays grow 1 e cell_side cell_side
icons zero e h =
    subst (λ d. IsIcon efi (disk icon) pixels arrays grow 1 d cell_side cell_side) (some_inj h)
      entry-IsIcon
icons (suc j) e h = absurd cc

pub round-IsReady :
    (bs : BootServices) (images : List (List Pixel)) (entries : List BootEntry)
    (sprite : List Pixel)
    → AreTextures (cell_side * cell_side) 11 (record { images = images; count = 11 })
    → 1 ≤ length entries
    → ((j : ℕ) (e : BootEntry)
        → get_elem? entries j ≡ some e
        → IsIcon efi bs pixels arrays grow 1 e cell_side cell_side)
    → cell_side * cell_side ≤ length sprite
    → IsReady efi bs pixels arrays grow 1
        (λ i. 5)
        pixels_room
        grow-Grows
        (setting images entries sprite)
unfolding is_escape
round-IsReady bs images entries sprite textured counted icons full = record {
  size = refl;
  small = omega arith;
  wide = omega arith;
  tall = omega arith;
  begins = (omega arith, omega arith);
  textured = textured;
  positive = omega arith;
  few_textures = omega arith;
  fresh = λ k c e. elim (cell_at k c e) [
    | inl free ↦ omega arith
    | inr (even, low, same) ↦ omega arith
  ];
  twelve = refl;
  few = omega arith;
  counted = counted;
  icons = icons;
  sprite = full;
}

abbrev images : List (List Pixel)
images = replicate 11 tile

setting-IsReady :
    IsReady efi
      (disk icon)
      pixels
      arrays
      grow
      1
      (λ i. 5)
      pixels_room
      grow-Grows
      (setting images (entry ∷ []) tile)
setting-IsReady =
    round-IsReady (disk icon) images (entry ∷ []) tile
      (record { count = refl; start_le = omega arith; full = tiles_full 11 }) (omega arith) icons
      (omega (arith, tile_size))

abbrev pub keys : List KeyPress
keys = record { scan_code = right; stale = 0 } ∷ []

maze_game_lem_example :
    Returns
      (Played efi
        (disk icon)
        pixels
        arrays
        grow
        1
        (λ i. 5)
        pixels_room
        grow-Grows
        (setting images (entry ∷ []) tile)
        setting-IsReady
        (800, 600))
      (maze_game efi
        (disk icon)
        pixels
        arrays
        grow
        1
        (λ i. 5)
        (setting images (entry ∷ []) tile)
        (some (800, 600))
        keys)
maze_game_lem_example =
    maze_game_lem efi (disk icon) pixels arrays grow 1 (λ i. 5) pixels_room grow-Grows
      (setting images (entry ∷ []) tile) setting-IsReady (800, 600) keys (omega arith, tt)
